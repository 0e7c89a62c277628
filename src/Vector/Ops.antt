-- ===== src/Vector/Ops.antt =====
-- The functions of lib/vector.c. `word` is the memory by the addresses of its words. A free slot
-- has the address of the next one with the lowest bit set. Where `kmalloc` is called, the address
-- that it returns is an argument.
use ukernel_mp.Base.{
  ℕ, zero, suc, Bool, true, false, ◌+◌, ◌-◌, ◌*◌, ◌/◌, ◌%◌, ◌^◌, ◌==◌, ◌||◌, ltb, leb, not, Option,
  none, some, if◌then◌else◌, update,
}
use ukernel_mp.Glist.Heap.{Ptr, null}

-- `VECTOR_MAX_SIZE` and `VECTOR_MIN_SIZE`
abbrev pub max_size : ℕ
max_size = 0xffff - 1

abbrev pub min_size : ℕ
min_size = 8

pub record Vector : Type 0 where
  pub size : ℕ
  pub nfree : ℕ
  pub free : Ptr
  pub table : Ptr
  pub word : ℕ → ℕ

-- `EntryGet` and `GetPtr`
abbrev pub entry_get : ℕ → Ptr
entry_get p = p / 2 * 2

abbrev pub entry_set : Ptr → ℕ
entry_set p = p / 2 * 2 + 1

abbrev pub entry_get_next : (ℕ → ℕ) → Ptr → Ptr
entry_get_next w e = entry_get (w e)

-- `EntryAdjust`, from the table at `old` to the one at `new`
abbrev pub entry_adjust : (old new p : ℕ) → ℕ
entry_adjust old new p = (p + new + 2 ^ 32 - old) % 2 ^ 32

-- The address of slot `i`, and the slot of an address.
abbrev pub slot : Vector → ℕ → Ptr
slot v i = v.table + 4 * i

abbrev pub index_of : Vector → Ptr → ℕ
index_of v p = (p - v.table) / 4

-- The loop of `VectorInit`: `left` entries, from `entry` on, are linked to those behind them.
unfoldable pub init_links : (left : ℕ) → Ptr → (ℕ → ℕ) → (ℕ → ℕ)
init_links zero entry w = update w entry (entry_set null)
init_links (suc left) entry w = init_links left (entry + 4) (update w entry (entry_set (entry + 4)))

unfoldable pub vector_init : (base size : ℕ) → (ℕ → ℕ) → Vector
unfolding init_links
vector_init base size w =
    let top = if ltb max_size size then max_size else size in
    let n = (if ltb top min_size then min_size else top) + 1 in
    record { size = n; nfree = n; free = base; table = base; word = init_links (n - 1) base w }

-- `memcpy` of `left` words
unfoldable pub copy_words : (left from to : ℕ) → (ℕ → ℕ) → (ℕ → ℕ)
copy_words zero from to w = w
copy_words (suc left) from to w = copy_words left (from + 4) (to + 4) (update w to (w from))

-- The loop of `VectorExpand` over the free entries; the last of them is returned.
unfoldable pub adjust_links : ℕ → (old new : ℕ) → Ptr → (ℕ → ℕ) → Option (Ptr × (ℕ → ℕ))
adjust_links zero old new cur w = none
adjust_links (suc fuel) old new cur w =
    let moved = update w cur (entry_adjust old new (w cur)) in
    let rest = adjust_links fuel old new (entry_get_next moved cur) moved in
    if w cur == entry_set null then some (cur, w) else rest

-- The last loop: `left` entries, from `entry` on, are linked behind `prev`.
unfoldable pub append_links : (left : ℕ) → (prev entry : Ptr) → (ℕ → ℕ) → (ℕ → ℕ)
append_links zero prev entry w = update w prev (entry_set null)
append_links (suc left) prev entry w =
    append_links left entry (entry + 4) (update w prev (entry_set entry))

-- `newSize`
unfoldable pub new_size : Vector → ℕ → ℕ
new_size v size =
    let n = if ltb v.size size then size + 1 else v.size + min_size in
    if ltb max_size n then max_size else n

-- With the entries adjusted, of which `prev` is the last.
unfoldable pub expand_to : (n base : ℕ) → (free prev : Ptr) → (ℕ → ℕ) → Vector → Vector
unfolding append_links
expand_to n base free prev w v =
    let entry = base + 4 * v.size in
    record {
      size = n;
      nfree = (v.nfree + n + 2 ^ 32 - v.size) % 2 ^ 16;
      free = free;
      table = base;
      word =
          append_links ((n + 2 ^ 32 - v.size - 1) % 2 ^ 32) prev
            (if entry == prev then entry + 4 else entry) w;
    }

-- No result is a loop over the free entries that has not ended within its fuel; the Boolean of
-- `-1` and 0 is whether there is a new table.
unfoldable pub vector_expand : (fuel base size : ℕ) → Vector → Option (Bool × Vector)
unfolding new_size copy_words adjust_links expand_to
vector_expand fuel base size v =
    let n = new_size v size in
    let w = copy_words v.size v.table base v.word in
    let free = entry_adjust v.table base v.free in
    if v.size == max_size
    then some (false, v)
    else (if v.free == null
        then (let entry = base + 4 * v.size in some (true, expand_to n base entry entry w v))
        else (elim (adjust_links fuel v.table base (entry_get free) w) [
          | none ↦ none
          | some (prev, w') ↦ some (true, expand_to n base free prev w' v)
        ]))

-- The first free slot takes the object.
unfoldable pub insert_free : Ptr → Vector → ℕ × Vector
insert_free obj v =
    let p = entry_get v.free in
    (
      index_of v p,
      record v {
        free = entry_get_next v.word v.free;
        nfree = (v.nfree + 2 ^ 16 - 1) % 2 ^ 16;
        word = update v.word p obj;
      },
    )

-- The inner `none` is the result -1.
unfoldable pub vector_insert : (fuel base : ℕ) → Ptr → Vector → Option (Option ℕ × Vector)
unfolding insert_free vector_expand
vector_insert zero base obj v = none
vector_insert (suc fuel) base obj v =
    let put = insert_free obj v in
    if not (obj % 4 == 0)
    then some (none, v)
    else (if not (v.free == null)
        then some (some put.0, put.1)
        else (elim (vector_expand fuel base 0 v) [
          | none ↦ none
          | some (grown, g) ↦
              let again = vector_insert fuel base obj g in if grown then again else some (none, g)
        ]))

-- The free slot `cur` behind `prev` takes the object.
unfoldable pub insert_between : (prev cur : Ptr) → Ptr → Vector → Vector
insert_between prev cur obj v =
    let after = entry_get_next v.word cur in
    let w = if prev == null then v.word else update v.word prev (entry_set after) in
    record v {
      free = if prev == null then after else v.free;
      nfree = (v.nfree + 2 ^ 16 - 1) % 2 ^ 16;
      word = update w cur obj;
    }

-- The loop of `VectorInsertAt`: the first free slot from `index` on, behind the one before it in
-- the free list. The inner `none` is the end of that list, the outer one a loop that has not
-- ended within its fuel.
unfoldable pub find_at : (fuel index : ℕ) → (prev cur : Ptr) → Vector → Option (Option (Ptr × Ptr))
find_at zero index prev cur v = none
find_at (suc fuel) index prev cur v =
    let rest = find_at fuel index cur (entry_get_next v.word cur) v in
    if cur == null
    then some none
    else (if leb index (index_of v cur) then some (some (prev, cur)) else rest)

-- `base i` is the address of the table of expansion `i`.
unfoldable pub vector_insert_at :
    ℕ → (base : ℕ → Ptr) → Ptr → ℕ → Vector → Option (Option ℕ × Vector)
unfolding find_at insert_between vector_expand
vector_insert_at zero base obj index v = none
vector_insert_at (suc fuel) base obj index v =
    if not (obj % 4 == 0)
    then some (none, v)
    else (elim (find_at fuel index null (entry_get v.free) v) [
      | none ↦ none
      | some (some (prev, cur)) ↦ some (some (index_of v cur), insert_between prev cur obj v)
      | some none ↦ elim (vector_expand fuel (base 0) 0 v) [
        | none ↦ none
        | some (grown, g) ↦
            let again = vector_insert_at fuel (λ i. base (suc i)) obj index g in
            if grown then again else some (none, g)
      ]
    ])

unfoldable pub vector_remove : ℕ → Vector → Ptr × Vector
vector_remove index v =
    let entry = slot v index in
    let obj = v.word entry in
    if ltb v.size index || not (obj % 2 == 0) then (null, v) else (
      obj,
      record v {
        word = update v.word entry (entry_set v.free);
        free = entry_get entry;
        nfree = (v.nfree + 1) % 2 ^ 16;
      },
    )

unfoldable pub vector_peek : ℕ → Vector → Ptr
vector_peek index v =
    let obj = v.word (slot v index) in
    if ltb v.size index then null else (if obj % 2 == 0 then obj else null)

unfoldable pub vector_usage : Vector → ℕ
vector_usage v = v.size - v.nfree

unfoldable pub vector_free : Vector → Vector
vector_free v = record v { size = 0; nfree = 0; free = null; table = null }
