-- ===== src/Glist/Heap.antt =====
-- lib/include/glist.h: nodes, lists and the state that one CPU runs over.
-- The three words of a `glistNode_t` are three maps from addresses. The callbacks `ListSort` and
-- `ListCmp` may write to the objects that hold the nodes: that state is the parameter `S`.
use ukernel_mp.Base.{ℕ, Bool, Option, ℤ, ◌^◌, ◌-◌, ◌==◌, if◌then◌else◌, update}

abbrev pub Ptr : Type 0
Ptr = ℕ

abbrev pub null : Ptr
null = 0

pub data GlistType : Type 0 where
  g_list g_circular_list g_fifo g_lifo : GlistType

-- `(uint32_t)(-1)`
abbrev pub no_writer : ℕ
no_writer = 2 ^ 32 - 1

-- `readers` is an `int32_t`, kept as its 32-bit pattern.
pub record RwLock : Type 0 where
  pub readers : ℕ
  pub writer : ℕ

pub record Glist (S : Type 0) : Type 0 where
  pub kind : GlistType
  pub count : ℕ
  pub list_sort : Option (Ptr → Ptr → S → ℤ × S)
  pub list_cmp : Option (Ptr → ℕ → S → ℤ × S)
  pub first : Ptr
  pub last : Ptr
  pub lock : RwLock

-- `masked`: the interrupts of this CPU are disabled.
pub record Mem (S : Type 0) : Type 0 where
  pub next : Ptr → Ptr
  pub prev : Ptr → Ptr
  pub owner : Ptr → Ptr
  pub list : Ptr → Glist S
  pub objects : S
  pub cpu : ℕ
  pub masked : Bool

-- `fault` is an access through NULL; `hang` a loop that this CPU alone never leaves.
pub data Run (S A : Type 0) : Type 0 where
  ok : A → Mem S → Run S A
  fault : Run S A
  hang : Run S A

abbrev pub Cmd : Type 0 → Type 0 → Type 0
Cmd S A = Mem S → Run S A

module _ {S : Type 0} where
  abbrev pub pure : {A : Type 0} → A → Cmd S A
  pure = ok

  abbrev pub and_then : {A B : Type 0} → Run S A → (A → Cmd S B) → Run S B
  and_then (ok a m) k = k a m
  and_then fault k = fault
  and_then hang k = hang

  infixl 5 ◌>>=◌ ◌>>◌
  abbrev pub ◌>>=◌ : {A B : Type 0} → Cmd S A → (A → Cmd S B) → Cmd S B
  ◌>>=◌ c k m = and_then (c m) k

  abbrev pub ◌>>◌ : {B : Type 0} → Cmd S (Unit {0}) → Cmd S B → Cmd S B
  c >> k = c >>= λ _. k

  -- An access through `p` faults at NULL.
  abbrev pub deref : {A : Type 0} → Ptr → Cmd S A → Cmd S A
  deref p c m = if p == null then fault else c m

  abbrev pub get_next : Ptr → Cmd S Ptr
  get_next p = deref p (λ m. ok (m.next p) m)

  abbrev pub get_prev : Ptr → Cmd S Ptr
  get_prev p = deref p (λ m. ok (m.prev p) m)

  abbrev pub get_owner : Ptr → Cmd S Ptr
  get_owner p = deref p (λ m. ok (m.owner p) m)

  abbrev pub set_next : Ptr → Ptr → Cmd S (Unit {0})
  set_next p q = deref p (λ m. ok tt (record m { next = update m.next p q }))

  abbrev pub set_prev : Ptr → Ptr → Cmd S (Unit {0})
  set_prev p q = deref p (λ m. ok tt (record m { prev = update m.prev p q }))

  abbrev pub set_owner : Ptr → Ptr → Cmd S (Unit {0})
  set_owner p q = deref p (λ m. ok tt (record m { owner = update m.owner p q }))

  abbrev pub get_list : Ptr → Cmd S (Glist S)
  get_list l = deref l (λ m. ok (m.list l) m)

  -- A write to fields of the list at `l`.
  abbrev pub set_list : Ptr → (Glist S → Glist S) → Cmd S (Unit {0})
  set_list l f = deref l (λ m. ok tt (record m { list = update m.list l (f (m.list l)) }))

  -- A call of a callback.
  abbrev pub call : {A : Type 0} → (S → A × S) → Cmd S A
  call f m = let (a, s) = f m.objects in ok a (record m { objects = s })
