-- ===== src/Mutex/Guards.antt =====
-- A mutex that one task has taken, and what another task of the process can do with it.
use ukernel_mp.Base.{ℕ, ◌≡◌, ◌≢◌, sym, ap, ◌∙◌, ℤ, List, update, update_self}
use ukernel_mp.Glist.Heap.{Ptr, Mem, Cmd, ok}
use ukernel_mp.Glist.Link.{e_ok, e_error, e_busy}
use ukernel_mp.Glist.Inv.{Returns, Returns-mono, with_objects}
use ukernel_mp.Sched.State.{Kernel}
use ukernel_mp.Mutex.Handle.{Layout, mutex_trylock}
use ukernel_mp.Mutex.Ops.{mutex_unlock}
use ukernel_mp.Mutex.Owned.{self, IsOurs, refused-other}
use ukernel_mp.Mutex.Taken.{IsOwner, trylock-IsTaken}

-- The CPU runs the task `t` of the same process.
abbrev pub running : Ptr → Mem Kernel → Mem Kernel
running t g =
    with_objects
      (record g.objects {
        cpu = update g.objects.cpu g.cpu (record (g.objects.cpu g.cpu) { task = t });
      })
      g

module _ (at : Layout) (mutex t : Ptr) (g : Mem Kernel) where
  here : (running t g).objects.cpu g.cpu ≡ record (g.objects.cpu g.cpu) { task = t }
  here = update_self g.objects.cpu g.cpu _

  running-IsOurs : IsOurs at g mutex → IsOurs at (running t g) mutex
  running-IsOurs up = record {
    nonnull = up.nonnull;
    magic = up.magic;
    pnode = up.pnode;
    process = ap (λ c. c.process) here ∙ up.process;
    free = up.free;
  }

  self-running : self (running t g) ≡ t
  self-running = ap (λ c. c.task) here

module _ (at : Layout) (sleepers tasks : Ptr) (call_handler : ℕ → ℕ → ℕ → Cmd Kernel (Unit {0}))
    (m : Mem Kernel) (mutex fresh again t : Ptr) where
  -- The task `t` is refused in the state `g`, and leaves it as it is.
  abbrev pub IsRefused : Mem Kernel → Type 0
  IsRefused g =
      (mutex_unlock at sleepers tasks call_handler again mutex (running t g)
        ≡ ok e_error (running t g))
      × (mutex_trylock at again mutex (running t g) ≡ ok e_busy (running t g))

  -- `MutexTrylock` of a mutex of the process that is not locked, whose spin lock is free, by a
  -- task whose list of mutexes is well formed, returns `E_OK`; in the state that it leaves,
  -- with another task of the process running on the CPU, `MutexUnlock` of it returns `E_ERROR`
  -- and `MutexTrylock` `E_BUSY`, and neither changes anything.
  pub trylock-IsRefused :
      (sort : Ptr → Ptr → Kernel → ℤ × Kernel) (xs : List ℕ)
      → IsOurs at m mutex
      → (m.objects.mutex mutex).lock ≢ 1
      → IsOwner at m mutex sort xs
      → t ≢ self m
      → Returns (λ r g. (r ≡ e_ok) × IsRefused g) (mutex_trylock at fresh mutex m)
  trylock-IsRefused sort xs up idle own other =
      Returns-mono (trylock-IsTaken at m mutex sort xs fresh up idle own) λ r g (e, taken). (
        e,
        refused-other at sleepers tasks call_handler (running t g) mutex again
            (running-IsOurs at mutex t g taken.ours) taken.lock
            (λ z. other (sym (self-running at mutex t g) ∙ sym z ∙ taken.owner)),
      )
