-- ===== src/Sem/Tests.antt =====
-- The theorems on semaphores at the one of the test machine that is at 40.
use ukernel_mp.Base.{◌≡◌, refl, arith}
use ukernel_mp.Glist.Heap.{ok, pure}
use ukernel_mp.Glist.Link.{e_ok}
use ukernel_mp.Sched.Tests.{two}
use ukernel_mp.Sem.Ops.{returned}
use ukernel_mp.Sem.Trip.{IsIdle, wait_post, wait-post}

idle : IsIdle 40 two
idle = record { nonnull = omega arith; magic = refl; free = refl }

wait-post_example :
    wait_post 200 100 (λ t. t) (λ n. n) (λ s. s) (λ _ _ _. pure tt) 0 40 two
    ≡ ok (returned e_ok, e_ok) two
wait-post_example =
    wait-post 200 100 (λ t. t) (λ n. n) (λ s. s) (λ _ _ _. pure tt) 0 40 two idle (omega arith)
      (omega arith)
