-- ===== src/Buddy/Rows.antt =====
-- How the functions of memory/buddy_2.c relink the free list of one order.
use ukernel_mp.Base.{
  ℕ, ◌≡◌, ◌≢◌, refl, sym, ◌∙◌, false, List, [], ◌∷◌, ◌++◌, update, update_ne, update_self,
  update-update_ne, ==_ne, head_or, last_or, has, IsDistinct, IsDistinct-insert, has-insert,
  ne_of_has, ne_of_head, ne_of_has_append, last_or-ne, has-last_or,
}
use mathlib.Core.List.{append-nil}
use ukernel_mp.Glist.Heap.{null}
use ukernel_mp.Glist.Chain.{
  Nexts, Prevs, Nexts-split, Prevs-split, Nexts-update, Prevs-update, Prevs-relink,
}
use ukernel_mp.Glist.Relink.{Nexts-insert, Prevs-insert, Nexts-append_one, Prevs-append_one}
use ukernel_mp.Buddy.Blocks.{Blocks, before, behind, link_only, link_at}

-- The free list of the order is `xs`.
pub record IsRow (b : Blocks) (order : ℕ) (xs : List ℕ) : Type 0 where
  pub head : b.heads order ≡ head_or xs null
  pub nexts : Nexts b.next xs null
  pub prevs : Prevs b.prev null xs
  pub distinct : IsDistinct xs
  pub nonnull : has null xs ≡ false

-- From `b` to `g` only the list of the order, its nodes `xs` and `block` have been written.
pub record IsWritten (b g : Blocks) (order block : ℕ) (xs : List ℕ) : Type 0 where
  pub heads : (o : ℕ) → o ≢ order → g.heads o ≡ b.heads o
  pub nodes : (a : ℕ) → has a xs ≡ false → a ≢ block → (g.next a ≡ b.next a) × (g.prev a ≡ b.prev a)

abbrev pub Relinked : Blocks → ℕ → ℕ → List ℕ → List ℕ → Blocks → Type 0
Relinked b order block xs ys g = IsRow g order ys × IsWritten b g order block xs

-- A node of a row is not NULL, and the one in front of it is the last of those before.
pub row-ne_null :
    {b : Blocks} {o : ℕ} (xs : List ℕ) (x : ℕ) (ys : List ℕ) → IsRow b o (xs ++ x ∷ ys) → x ≢ null
row-ne_null xs x ys k e = ne_of_has_append null xs x ys k.nonnull (sym e)

pub row-prev :
    {b : Blocks} {o : ℕ} (xs : List ℕ) (x : ℕ) (ys : List ℕ)
    → IsRow b o (xs ++ x ∷ ys)
    → b.prev x ≡ last_or null xs
row-prev {b} xs x ys k = (Prevs-split b.prev null xs (x ∷ ys) k.prevs).1.0

pub row-next :
    {b : Blocks} {o : ℕ} (xs : List ℕ) (x : ℕ) (ys : List ℕ)
    → IsRow b o (xs ++ x ∷ ys)
    → b.next x ≡ head_or ys null
row-next {b} xs x ys k = (Nexts-split b.next xs (x ∷ ys) null k.nexts).1.0

module _ (b : Blocks) (order block : ℕ) (fresh : block ≢ null) where
  pub link_only_lem :
      IsRow b order [] → Relinked b order block [] (block ∷ []) (link_only block order b)
  unfolding link_only
  link_only_lem k = (
    record {
      head = update_self b.heads order block;
      nexts = (update_self b.next block null, tt);
      prevs = (update_self b.prev block null, tt);
      distinct = (refl, tt);
      nonnull = has-insert null [] block [] (λ e. fresh (sym e)) refl;
    },
    record {
      heads = λ o ne. update_ne b.heads block ne;
      nodes = λ a out ne. (update_ne b.next null ne, update_ne b.prev null ne);
    },
  )

  before-head :
      (it : ℕ) (ys : List ℕ)
      → IsRow b order (it ∷ ys)
      → has block (it ∷ ys) ≡ false
      → Relinked b order block (it ∷ ys) (block ∷ it ∷ ys) (link_at block order (before it) b)
  unfolding link_at
  before-head it ys k out =
      let p0 : b.prev it ≡ null = k.prevs.0 in
      let it_ne : it ≢ block = λ e. ne_of_head block it ys out (sym e) in
      rw (p0, ==_ne it_ne)
        (
          record {
            head = update_self b.heads order block;
            nexts = (
              update_self b.next block it,
              Nexts-update b.next (it ∷ ys) null block it k.nexts out,
            );
            prevs = (
              update_ne (update b.prev block null) block (ne_of_head block it ys out)
                  ∙ update_self b.prev block null,
              Prevs-relink (update b.prev block null) null it ys block
                  (Prevs-update b.prev null (it ∷ ys) block null k.prevs out) k.distinct.0,
            );
            distinct = (out, k.distinct);
            nonnull = has-insert null [] block (it ∷ ys) (λ e. fresh (sym e)) k.nonnull;
          },
          record {
            heads = λ o ne. update_ne b.heads block ne;
            nodes = λ a o ne. (
              update_ne b.next it ne,
              update-update_ne b.prev null block ne (ne_of_head a it ys o),
            );
          },
        )

  before-tail :
      (x : ℕ) (xs : List ℕ) (it : ℕ) (ys : List ℕ)
      → IsRow b order (x ∷ xs ++ it ∷ ys)
      → has block (x ∷ xs ++ it ∷ ys) ≡ false
      → Relinked b order block
          (x ∷ xs ++ it ∷ ys)
          (x ∷ xs ++ block ∷ it ∷ ys)
          (link_at block order (before it) b)
  unfolding link_at
  before-tail x xs it ys k out =
      let p0 = row-prev (x ∷ xs) it ys k in
      let it_ne : it ≢ block = λ e. ne_of_has_append block (x ∷ xs) it ys out (sym e) in
      let last_ne = last_or-ne null x xs (it ∷ ys) k.nonnull in
      rw (p0, ==_ne it_ne, ==_ne last_ne)
        (
          record {
            head = k.head;
            nexts = Nexts-insert b.next x xs (it ∷ ys) null block k.nexts k.distinct out;
            prevs = Prevs-insert b.prev null (x ∷ xs) it ys block k.prevs k.distinct out;
            distinct = IsDistinct-insert (x ∷ xs) (it ∷ ys) block k.distinct out;
            nonnull = has-insert null (x ∷ xs) block (it ∷ ys) (λ e. fresh (sym e)) k.nonnull;
          },
          record {
            heads = λ o ne. refl;
            nodes = λ a o ne. (
              update-update_ne b.next it block ne (λ e. last_or-ne a x xs (it ∷ ys) o (sym e)),
              update-update_ne b.prev (last_or x xs) block ne (ne_of_has_append a (x ∷ xs) it ys o),
            );
          },
        )

  -- In front of a node of the list.
  pub link_before_lem :
      (xs : List ℕ) (it : ℕ) (ys : List ℕ)
      → IsRow b order (xs ++ it ∷ ys)
      → has block (xs ++ it ∷ ys) ≡ false
      → Relinked b order block
          (xs ++ it ∷ ys)
          (xs ++ block ∷ it ∷ ys)
          (link_at block order (before it) b)
  link_before_lem [] it ys = before-head it ys
  link_before_lem (x ∷ xs) it ys = before-tail x xs it ys

  -- Behind the last one.
  pub link_behind_lem :
      (x : ℕ) (xs : List ℕ)
      → IsRow b order (x ∷ xs)
      → has block (x ∷ xs) ≡ false
      → Relinked b order block
          (x ∷ xs)
          (x ∷ xs ++ block ∷ [])
          (link_at block order (behind (last_or x xs)) b)
  unfolding link_at
  link_behind_lem x xs k out = (
    record {
      head = k.head;
      nexts = Nexts-append_one b.next x xs null block k.nexts k.distinct out;
      prevs = Prevs-append_one b.prev null (x ∷ xs) block k.prevs out;
      distinct = IsDistinct-insert (x ∷ xs) [] block (rw append-nil k.distinct) (rw append-nil out);
      nonnull = has-insert null (x ∷ xs) block [] (λ e. fresh (sym e)) (rw append-nil k.nonnull);
    },
    record {
      heads = λ o ne. refl;
      nodes = λ a o ne. (
        update-update_ne b.next null block ne
            (λ e. ne_of_has a (last_or x xs) (x ∷ xs) o (has-last_or x xs) e),
        update_ne b.prev (last_or x xs) ne,
      );
    },
  )
