-- ===== src/Vector/Slot.antt =====
-- A slot of a vector: insertion, look-up and removal.
use ukernel_mp.Base.{
  ℕ, zero, suc, ◌≡◌, ◌<◌, ◌≤◌, ◌+◌, ◌-◌, ◌/◌, ◌%◌, ◌^◌, ◌==◌, true, false, refl, ap, ◌∙◌, arith,
  sym, ltb, leb, Option, none, some, update, update_ne, update_self, update_same, update-update,
}
use ukernel_mp.Glist.Heap.{Ptr, null}
use ukernel_mp.Vector.Ops.{
  Vector, slot, entry_get, entry_set, insert_free, vector_insert_at, find_at, insert_between,
  vector_init, init_links, vector_insert, vector_remove, vector_peek, vector_usage,
}

-- Slot `i` is the first free one, and the object can be told from an entry.
pub record IsFree (v : Vector) (i : ℕ) : Type 0 where
  pub free : v.free ≡ slot v i
  pub in_table : i < v.size
  pub aligned : v.table % 4 ≡ 0
  pub nonnull : 0 < v.table
  pub tagged : v.word v.free % 2 ≡ 1
  pub some_free : 0 < v.nfree
  pub counted : v.nfree ≤ v.size
  pub small : v.size < 2 ^ 16

-- The vector with `obj` in slot `i`, the first free one.
abbrev pub filled : (obj i : ℕ) → Vector → Vector
filled obj i v = record v {
  free = entry_get (v.word v.free);
  nfree = v.nfree - 1;
  word = update v.word (slot v i) obj;
}

-- `VectorRemove` at the index that an insertion has returned, where it has put the object in.
abbrev pub remove_inserted : Option (Option ℕ × Vector) → Option (Option (Ptr × Vector))
remove_inserted none = none
remove_inserted (some (none, v)) = some none
remove_inserted (some (some at, v)) = some (some (vector_remove at v))

-- `VectorInsert`, and `VectorRemove` of the slot whose index it has returned.
abbrev pub insert_remove : (fuel base : ℕ) → Ptr → Vector → Option (Option (Ptr × Vector))
insert_remove fuel base obj v = remove_inserted (vector_insert fuel base obj v)

module _ (obj i : ℕ) (v : Vector) (up : IsFree v i) (is_obj : obj % 4 ≡ 0) where
  is_even : (obj % 2 == 0) ≡ true
  is_even = ground arith

  in_range : ltb v.size i ≡ false
  in_range = ground (arith, up.in_table)

  found : (filled obj i v).word (slot v i) ≡ obj
  found = update_self v.word (slot v i) obj

  -- `VectorInsert` of an aligned object into a vector with a free slot puts it into the first
  -- one and returns its index.
  insert-filled :
      (fuel base : ℕ) → vector_insert (suc fuel) base obj v ≡ some (some i, filled obj i v)
  unfolding vector_insert insert_free
  insert-filled fuel base =
      let ok : (obj % 4 == 0) ≡ true = ground arith in
      let some_slot : (v.free == null) ≡ false = ground (arith, up.free, up.nonnull) in
      let at : entry_get v.free ≡ slot v i = omega (arith, up.free, up.aligned) in
      let back : (slot v i - v.table) / 4 ≡ i = omega arith in
      let less : (v.nfree + 2 ^ 16 - 1) % 2 ^ 16 ≡ v.nfree - 1 =
        omega (arith, up.some_free, up.counted, up.small) in
      rw (ok, some_slot, at, back, less) refl

  find_at-first :
      (fuel index : ℕ)
      → index ≤ i
      → find_at (suc fuel) index null (slot v i) v ≡ some (some (null, slot v i))
  unfolding find_at
  find_at-first fuel index before =
      let nonnull : (slot v i == null) ≡ false = ground (arith, up.nonnull) in
      let back : (slot v i - v.table) / 4 ≡ i = omega arith in
      let is_at : leb index i ≡ true = ground arith in rw (nonnull, back, is_at) refl

  -- `VectorInsertAt` from an index on that is not behind the first free slot is `VectorInsert`:
  -- the object goes into that slot, whose index is returned.
  pub insert_at-insert :
      (fuel base : ℕ)
      → (bases : ℕ → Ptr) → (index : ℕ) → index ≤ i
      → vector_insert_at (suc (suc fuel)) bases obj index v ≡ vector_insert (suc fuel) base obj v
  unfolding vector_insert_at insert_between
  insert_at-insert fuel base bases index before =
      let ok : (obj % 4 == 0) ≡ true = ground arith in
      let at : entry_get v.free ≡ slot v i = omega (arith, up.free, up.aligned) in
      let back : (slot v i - v.table) / 4 ≡ i = omega arith in
      let less : (v.nfree + 2 ^ 16 - 1) % 2 ^ 16 ≡ v.nfree - 1 =
        omega (arith, up.some_free, up.counted, up.small) in
      let free : v.word (slot v i) ≡ v.word v.free = ap v.word (sym up.free) in
      rw (ok, at, find_at-first fuel index before, back, less, insert-filled fuel base, free) refl

  -- `VectorPeek` finds the inserted object at the index, and the number of slots in use has
  -- gone up by one.
  pub peek-filled :
      (vector_peek i (filled obj i v) ≡ obj)
      × (vector_usage (filled obj i v) ≡ suc (vector_usage v))
  unfolding vector_peek vector_usage
  peek-filled = (rw (in_range, found, is_even) refl, omega (arith, up.some_free, up.counted))

  -- `VectorRemove` of the slot that the insertion has filled returns the object and brings back
  -- the vector and its memory.
  remove-filled : vector_remove i (filled obj i v) ≡ (obj, v)
  unfolding vector_remove
  remove-filled =
      let tag : entry_set (entry_get (v.word v.free)) ≡ v.word v.free = omega (arith, up.tagged) in
      let words : update (update v.word (slot v i) obj) (slot v i) (v.word v.free) ≡ v.word =
        update-update v.word (slot v i) obj (v.word v.free)
        ∙ update_same v.word (slot v i) (v.word v.free) (ap v.word up.free) in
      let at : entry_get (slot v i) ≡ v.free = omega (arith, up.free, up.aligned) in
      let more : (v.nfree - 1 + 1) % 2 ^ 16 ≡ v.nfree =
        omega (arith, up.some_free, up.counted, up.small) in
      rw (in_range, found, is_even, tag, at, more) (ap (λ w. (obj, record v { word = w })) words)

  -- `VectorInsert` of an aligned object into a vector whose first free slot is in the table,
  -- and `VectorRemove` of the slot whose index it has returned, give the object back, and the
  -- vector and its memory as they were.
  pub insert-remove : (fuel base : ℕ) → insert_remove (suc fuel) base obj v ≡ some (some (obj, v))
  insert-remove fuel base =
      ap remove_inserted (insert-filled fuel base) ∙ ap (λ r. some (some r)) remove-filled

-- What is in front of the entry is left alone.
init_links-below :
    (left : ℕ) (entry : Ptr) (w : ℕ → ℕ) (a : ℕ) → a < entry → init_links left entry w a ≡ w a
unfolding init_links
init_links-below zero entry w a h = update_ne w (entry_set null) (λ e. omega arith)
init_links-below (suc left) entry w a h =
    init_links-below left (entry + 4) (update w entry (entry_set (entry + 4))) a (omega arith)
    ∙ update_ne w (entry_set (entry + 4)) (λ e. omega arith)

init_links-first : (left : ℕ) (entry : Ptr) (w : ℕ → ℕ) → init_links left entry w entry % 2 ≡ 1
unfolding init_links
init_links-first zero entry w = rw (update_self w entry (entry_set null)) (omega arith)
init_links-first (suc left) entry w =
    rw
      (
        init_links-below left (entry + 4) (update w entry (entry_set (entry + 4))) entry
            (omega arith),
        update_self w entry (entry_set (entry + 4)),
      )
      (omega arith)

-- The first slot of a new vector at an aligned address is free, whatever size was asked for.
pub init-IsFree :
    (base size : ℕ) (w : ℕ → ℕ) → 0 < base → base % 4 ≡ 0 → IsFree (vector_init base size w) 0
unfolding vector_init
init-IsFree base size w h aligned = record {
  free = omega arith;
  in_table = ground arith;
  aligned = aligned;
  nonnull = h;
  tagged = init_links-first ((vector_init base size w).size - 1) base w;
  some_free = ground arith;
  counted = ground arith;
  small = ground arith;
}
