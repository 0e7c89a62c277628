-- ===== src/Buddy/Free.antt =====
-- The free lists of all orders, as lists of the blocks that they hold.
use ukernel_mp.Base.{
  ℕ, ◌≡◌, ◌≢◌, ◌≤◌, ◌+◌, ◌^◌, sym, ◌∙◌, true, false, List, update, has, subst, ℕ_discrete,
  update_self, update_ne, false≢true,
}
use ukernel_mp.Glist.Heap.{null}
use ukernel_mp.Glist.Chain.{Nexts-agree, Prevs-agree}
use ukernel_mp.Buddy.Order.{bytes, max_order}
use ukernel_mp.Buddy.Blocks.{Blocks}
use ukernel_mp.Buddy.Rows.{IsRow, IsWritten, Relinked}
use ukernel_mp.Buddy.Cover.{within, covered, covered-apart}

-- The free list of each order `o` is `free o`, no byte is in two of the blocks, and no block wraps
-- around the end of the addresses.
pub record IsFree (b : Blocks) (free : ℕ → List ℕ) : Type 0 where
  pub rows : (o : ℕ) → o ≤ max_order → IsRow b o (free o)
  pub once : (p : ℕ) → covered free p ≤ 1
  pub bounded : (o a : ℕ) → o ≤ max_order → has a (free o) ≡ true → a + bytes o ≤ 2 ^ 32

-- The block of order `o` has no byte in common with the free blocks.
pub record IsOutside (free : ℕ → List ℕ) (block o : ℕ) : Type 0 where
  pub nonnull : block ≢ null
  pub fits : block + bytes o ≤ 2 ^ 32
  pub fresh : (p : ℕ) → covered free p + within block (bytes o) p ≤ 1

-- A list that shares nothing with what has been written.
IsRow-kept :
    {b g : Blocks} {o block : ℕ} {ws : List ℕ} (i : ℕ) (xs : List ℕ)
    → IsWritten b g o block ws
    → i ≢ o
    → ((a : ℕ) → has a xs ≡ true → (has a ws ≡ false) × (a ≢ block))
    → IsRow b i xs
    → IsRow g i xs
IsRow-kept {b} {g} i xs w ne out k = record {
  head = w.heads i ne ∙ k.head;
  nexts =
      Nexts-agree b.next g.next xs null (λ a is. let (o, n) = out a is in (w.nodes a o n).0)
        k.nexts;
  prevs =
      Prevs-agree b.prev g.prev null xs (λ a is. let (o, n) = out a is in (w.nodes a o n).1)
        k.prevs;
  distinct = k.distinct;
  nonnull = k.nonnull;
}

pub IsFree-apart :
    {b : Blocks} {free : ℕ → List ℕ} (o i a : ℕ)
    → IsFree b free
    → o ≤ max_order
    → i ≤ max_order
    → i ≢ o
    → has a (free i) ≡ true
    → has a (free o) ≡ false
IsFree-apart {b} {free} o i a k ho hi ne is =
    covered-apart free i hi o a ho (λ e. ne (sym e)) (k.once a) is

-- A new list for one order, with the others kept.
pub IsFree-Relinked :
    {b g : Blocks} {free : ℕ → List ℕ} (o block : ℕ) (ys : List ℕ)
    → IsFree b free
    → o ≤ max_order
    → Relinked b o block (free o) ys g
    → ((i : ℕ) → i ≤ max_order → i ≢ o → has block (free i) ≡ false)
    → ((p : ℕ) → covered (update free o ys) p ≤ 1)
    → ((a : ℕ) → has a ys ≡ true → a + bytes o ≤ 2 ^ 32)
    → IsFree g (update free o ys)
IsFree-Relinked {b} {g} {free} o block ys k ho (row, w) others once bounded = record {
  rows = λ i hi. elim (ℕ_discrete i o) [
    | yes e ↦ rw (e, update_self free o ys) row
    | no ne ↦ rw (update_ne free ys ne) (
        IsRow-kept i (free i) w ne
          (λ a is. (
            IsFree-apart o i a k ho hi ne is,
            λ e. false≢true (sym (others i hi ne) ∙ subst (λ c. has c (free i) ≡ true) e is),
          ))
          (k.rows i hi))
  ];
  once = once;
  bounded = λ i a hi. elim (ℕ_discrete i o) [
    | yes e ↦ rw (e, update_self free o ys) (bounded a)
    | no ne ↦ rw (update_ne free ys ne) (k.bounded i a hi)
  ];
}
