-- ===== src/Buddy/Taken.antt =====
-- How a block leaves the free list of its order: `BlockGet` takes the first one, `BlockRemove` any.
use ukernel_mp.Base.{
  ℕ, ◌≡◌, ◌≢◌, refl, sym, subst, List, [], ◌∷◌, ◌++◌, update, update_ne, update_self,
  update-update_ne, ==_ne, last_or, IsDistinct, IsDistinct-erase, has-erase, ne_of_has,
  ne_of_has_append, last_or-ne, not_has_around, has-last_or,
}
use mathlib.Core.List.{append-nil}
use ukernel_mp.Glist.Heap.{null}
use ukernel_mp.Glist.Chain.{Prevs, Prevs-split, Nexts-update, Prevs-update, Prevs-relink}
use ukernel_mp.Glist.Relink.{Nexts-unlink, Prevs-unlink}
use ukernel_mp.Buddy.Blocks.{Blocks, block_remove, block_get}
use ukernel_mp.Buddy.Rows.{IsRow, Relinked, row-ne_null, row-prev, row-next}

module _ (b : Blocks) (order : ℕ) where
  -- The first block is taken from the list.
  get-one : (x : ℕ) → IsRow b order (x ∷ []) → Relinked b order x (x ∷ []) [] (block_get order b).1
  unfolding block_get
  get-one x k =
      let x_ne = row-ne_null [] x [] k in
      rw (k.head, ==_ne x_ne, k.nexts.0)
        (
          record {
            head = update_self b.heads order null;
            nexts = tt;
            prevs = tt;
            distinct = tt;
            nonnull = refl;
          },
          record { heads = λ o ne. update_ne b.heads null ne; nodes = λ a o ne. (refl, refl) },
        )

  get-more :
      (x y : ℕ) (ys : List ℕ)
      → IsRow b order (x ∷ y ∷ ys)
      → Relinked b order x (x ∷ y ∷ ys) (y ∷ ys) (block_get order b).1
  unfolding block_get
  get-more x y ys k =
      let x_ne = row-ne_null [] x (y ∷ ys) k in
      let y_ne = row-ne_null (x ∷ []) y ys k in
      rw (k.head, ==_ne x_ne, k.nexts.0, ==_ne y_ne)
        (
          record {
            head = update_self b.heads order y;
            nexts = k.nexts.1;
            prevs = Prevs-relink b.prev x y ys null k.prevs.1 k.distinct.1.0;
            distinct = k.distinct.1;
            nonnull = has-erase null [] x (y ∷ ys) k.nonnull;
          },
          record {
            heads = λ o ne. update_ne b.heads y ne;
            nodes = λ a o ne. (refl, update_ne b.prev null (ne_of_has_append a (x ∷ []) y ys o));
          },
        )

  pub block_get_lem :
      (x : ℕ) (xs : List ℕ)
      → IsRow b order (x ∷ xs)
      → ((block_get order b).0 ≡ x) × Relinked b order x (x ∷ xs) xs (block_get order b).1
  unfolding block_get
  block_get_lem x [] k =
      let x_ne = row-ne_null [] x [] k in (rw (k.head, ==_ne x_ne) refl, get-one x k)
  block_get_lem x (y ∷ ys) k =
      let x_ne = row-ne_null [] x (y ∷ ys) k in (rw (k.head, ==_ne x_ne) refl, get-more x y ys k)

  pub block_get_nil : IsRow b order [] → block_get order b ≡ (null, b)
  unfolding block_get
  block_get_nil k = rw k.head refl

module _ (b : Blocks) (order block : ℕ) where
  remove-only :
      IsRow b order (block ∷ [])
      → Relinked b order block (block ∷ []) [] (block_remove block order b)
  unfolding block_remove
  remove-only k =
      rw (k.prevs.0, k.nexts.0)
        (
          record {
            head = update_self b.heads order null;
            nexts = tt;
            prevs = tt;
            distinct = tt;
            nonnull = refl;
          },
          record {
            heads = λ o ne. update_ne b.heads null ne;
            nodes = λ a o ne. (update_ne b.next null ne, update_ne b.prev null ne);
          },
        )

  remove-head :
      (y : ℕ) (ys : List ℕ)
      → IsRow b order (block ∷ y ∷ ys)
      → Relinked b order block (block ∷ y ∷ ys) (y ∷ ys) (block_remove block order b)
  unfolding block_remove
  remove-head y ys k =
      let y_ne = row-ne_null (block ∷ []) y ys k in
      rw (k.prevs.0, k.nexts.0, ==_ne y_ne)
        (
          record {
            head = update_self b.heads order y;
            nexts = Nexts-update b.next (y ∷ ys) null block null k.nexts.1 k.distinct.0;
            prevs =
                Prevs-update (update b.prev y (b.prev block)) null (y ∷ ys) block null
                  (subst (λ q. Prevs (update b.prev y (b.prev block)) q (y ∷ ys)) k.prevs.0
                    (Prevs-relink b.prev block y ys (b.prev block) k.prevs.1 k.distinct.1.0))
                  k.distinct.0;
            distinct = k.distinct.1;
            nonnull = has-erase null [] block (y ∷ ys) k.nonnull;
          },
          record {
            heads = λ o ne. update_ne b.heads y ne;
            nodes = λ a o ne. (
              update_ne b.next null ne,
              update-update_ne b.prev (b.prev block) null (ne_of_has_append a (block ∷ []) y ys o)
                  ne,
            );
          },
        )

  last-ne_block :
      (x : ℕ) (xs ys : List ℕ) → IsDistinct (x ∷ xs ++ block ∷ ys) → block ≢ last_or x xs
  last-ne_block x xs ys d =
      ne_of_has block (last_or x xs) (x ∷ xs) (not_has_around (x ∷ xs) block ys d).0
        (has-last_or x xs)

  remove-last :
      (x : ℕ) (xs : List ℕ)
      → IsRow b order (x ∷ xs ++ block ∷ [])
      → Relinked b order block (x ∷ xs ++ block ∷ []) (x ∷ xs ++ []) (block_remove block order b)
  unfolding block_remove
  remove-last x xs k =
      let l_null = last_or-ne null x xs (block ∷ []) k.nonnull in
      let l_ne = last-ne_block x xs [] k.distinct in
      let (d, out) = IsDistinct-erase (x ∷ xs) [] block k.distinct in
      rw (row-prev (x ∷ xs) block [] k, ==_ne l_null, ==_ne l_ne, row-next (x ∷ xs) block [] k)
        (
          record {
            head = k.head;
            nexts =
                Nexts-update (update b.next (last_or x xs) null) (x ∷ xs ++ []) null block null
                  (Nexts-unlink b.next x xs block [] null k.nexts k.distinct) out;
            prevs =
                Prevs-update b.prev null (x ∷ xs ++ []) block null
                  (rw append-nil (Prevs-split b.prev null (x ∷ xs) (block ∷ []) k.prevs).0) out;
            distinct = d;
            nonnull = has-erase null (x ∷ xs) block [] k.nonnull;
          },
          record {
            heads = λ o ne. refl;
            nodes = λ a o ne. (
              update-update_ne b.next null null (λ e. last_or-ne a x xs (block ∷ []) o (sym e)) ne,
              update_ne b.prev null ne,
            );
          },
        )

  remove-inner :
      (x : ℕ) (xs : List ℕ) (y : ℕ) (ys : List ℕ)
      → IsRow b order (x ∷ xs ++ block ∷ y ∷ ys)
      → Relinked b order block
          (x ∷ xs ++ block ∷ y ∷ ys)
          (x ∷ xs ++ y ∷ ys)
          (block_remove block order b)
  unfolding block_remove
  remove-inner x xs y ys k =
      let l_null = last_or-ne null x xs (block ∷ y ∷ ys) k.nonnull in
      let l_ne = last-ne_block x xs (y ∷ ys) k.distinct in
      let (d, out) = IsDistinct-erase (x ∷ xs) (y ∷ ys) block k.distinct in
      let y_null : y ≢ null = λ e.
        ne_of_has_append null (x ∷ xs) y ys (has-erase null (x ∷ xs) block (y ∷ ys) k.nonnull)
          (sym e) in
      rw
        (
          row-prev (x ∷ xs) block (y ∷ ys) k,
          ==_ne l_null,
          ==_ne l_ne,
          row-next (x ∷ xs) block (y ∷ ys) k,
          ==_ne y_null,
          row-prev (x ∷ xs) block (y ∷ ys) k,
        )
        (
          record {
            head = k.head;
            nexts =
                Nexts-update (update b.next (last_or x xs) y) (x ∷ xs ++ y ∷ ys) null block null
                  (Nexts-unlink b.next x xs block (y ∷ ys) null k.nexts k.distinct) out;
            prevs =
                Prevs-update (update b.prev y (last_or x xs)) null (x ∷ xs ++ y ∷ ys) block null
                  (Prevs-unlink b.prev null (x ∷ xs) block y ys k.prevs k.distinct) out;
            distinct = d;
            nonnull = has-erase null (x ∷ xs) block (y ∷ ys) k.nonnull;
          },
          record {
            heads = λ o ne. refl;
            nodes = λ a o ne. (
              update-update_ne b.next y null (λ e. last_or-ne a x xs (block ∷ y ∷ ys) o (sym e)) ne,
              update-update_ne b.prev (last_or x xs) null
                  (ne_of_has_append a (x ∷ xs) y ys (has-erase a (x ∷ xs) block (y ∷ ys) o)) ne,
            );
          },
        )

  -- A block of the list is taken out of it.
  pub block_remove_lem :
      (xs ys : List ℕ)
      → IsRow b order (xs ++ block ∷ ys)
      → Relinked b order block (xs ++ block ∷ ys) (xs ++ ys) (block_remove block order b)
  block_remove_lem [] [] = remove-only
  block_remove_lem [] (y ∷ ys) = remove-head y ys
  block_remove_lem (x ∷ xs) [] = remove-last x xs
  block_remove_lem (x ∷ xs) (y ∷ ys) = remove-inner x xs y ys
