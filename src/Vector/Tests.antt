-- ===== src/Vector/Tests.antt =====
-- The theorems on lib/vector.c at a vector of ten slots at the address 64.
use ukernel_mp.Base.{some, ◌≡◌, refl, arith}
use ukernel_mp.Vector.Ops.{Vector, vector_init}
use ukernel_mp.Vector.Slot.{IsFree, insert_remove, insert-remove, init-IsFree}

abbrev ten : Vector
ten = vector_init 64 9 (λ _. 0)

ten-IsFree : IsFree ten 0
ten-IsFree = init-IsFree 64 9 (λ _. 0) (omega arith) refl

insert-remove_example : insert_remove 1 0 0x1000 ten ≡ some (some (0x1000, ten))
insert-remove_example = insert-remove 0x1000 0 ten ten-IsFree refl 0 0
