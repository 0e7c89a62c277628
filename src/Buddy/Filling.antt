-- ===== src/Buddy/Filling.antt =====
-- `buddySystemCreate` and `buddyInit`: the memory of a new buddy.
use ukernel_mp.Base.{
  ℕ, zero, suc, ◌≡◌, ◌<◌, ◌≤◌, ◌+◌, ◌-◌, ◌*◌, ◌%◌, ◌^◌, refl, subst, List, [], arith, length, ltb,
  Bool-cases, inl, inr, true, ltb→lt, false≢true,
}
use ukernel_mp.Glist.Heap.{null}
use ukernel_mp.Buddy.Order.{bytes, max_order, page_size, get_order, get_order-bound}
use ukernel_mp.Buddy.Blocks.{Blocks, done, ◌>>=◌, block_insert_merge}
use ukernel_mp.Buddy.Ops.{lower_order, init_loop, buddy_init, buddy_system_create}
use ukernel_mp.Buddy.Cover.{within-bound, bytes_suc, bytes-positive, covered, cover}
use ukernel_mp.Buddy.Pieces.{bytes_mono}
use ukernel_mp.Buddy.Free.{IsFree}
use ukernel_mp.Buddy.Grown.{Grown}
use ukernel_mp.Buddy.Places.{Gives, Gives-bind, Gives-map}
use ukernel_mp.Buddy.Conserve.{insert_merge-conserves}
use ukernel_mp.Buddy.GiveBack.{
  within-none, Given, IsOwned, IsOwned-first, IsOwned-rest, Given-of_rest,
}

-- The block of the lowered order ends at `end` or before.
record Lowered (start end order : ℕ) (r : ℕ × ℕ) : Type 0 where
  bound : r.0 ≤ order
  base : r.1 ≡ start + bytes r.0
  inside : start + bytes r.0 ≤ end

double_suc : (o : ℕ) → bytes (suc o) ≡ bytes o + bytes o
double_suc o = let e : suc o ≡ o + 1 = omega arith in rw e (bytes_suc o)

lower_order_lem :
    (order start end : ℕ)
    → start + page_size ≤ end
    → start + bytes order < 2 ^ 32
    → Gives (Lowered start end order) (lower_order order (start + bytes order) end)
unfolding lower_order
lower_order_lem zero start end h small = elim (Bool-cases (ltb end (start + bytes 0))) [
  | inl e ↦ ground (arith, ltb→lt end (start + bytes 0) e)
  | inr e ↦ rw e (record { bound = omega arith; base = refl; inside = ground arith })
]
lower_order_lem (suc order) start end h small =
    let twice : bytes (suc order) ≡ bytes order + bytes order = double_suc order in
    let half : (start + bytes (suc order) + 2 ^ 32 - bytes order) % 2 ^ 32 ≡ start + bytes order =
      omega (arith, twice, small) in
    elim (Bool-cases (ltb end (start + bytes (suc order)))) [
      | inl e ↦
          rw (e, half)
            (Gives-map (Lowered start end order) (Lowered start end (suc order))
              (lower_order order (start + bytes order) end)
              (λ r l. record { bound = omega (arith, l.bound); base = l.base; inside = l.inside })
              (lower_order_lem order start end h (omega (arith, twice))))
      | inr e ↦ rw e (record { bound = omega arith; base = refl; inside = ground arith })
    ]

init_none :
    (rounds depth fuel base end : ℕ) (b : Blocks)
    → 0 < rounds
    → end ≤ base
    → init_loop rounds depth fuel base end b ≡ done b
unfolding init_loop
init_none zero depth fuel base end b h le = absurd (omega arith)
init_none (suc rounds) depth fuel base end b h le = ground arith

init_step :
    (rounds depth fuel base end : ℕ) (b : Blocks)
    → base < end
    → base + bytes (get_order base) < 2 ^ 32
    → init_loop (suc rounds) depth fuel base end b ≡ (
        lower_order (get_order base) (base + bytes (get_order base)) end >>= λ r.
        block_insert_merge depth fuel base r.0 b >>= init_loop rounds depth fuel r.1 end)
unfolding init_loop
init_step rounds depth fuel base end b h small =
    let e : ltb base end ≡ true = ground arith in
    let same : (base + bytes (get_order base)) % 2 ^ 32 ≡ base + bytes (get_order base) =
      omega (arith, small) in
    rw (e, same) refl

-- The loop makes the pages free from `base` on.
init_loop-conserves :
    (rounds depth fuel base pages : ℕ) (b : Blocks) (free : ℕ → List ℕ)
    → IsFree b free
    → pages < rounds
    → max_order < depth
    → ((i : ℕ) → length (free i) + pages ≤ fuel)
    → base + pages * page_size + bytes max_order ≤ 2 ^ 32
    → IsOwned free base (pages * page_size)
    → Gives
        (Given free base (pages * page_size))
        (init_loop rounds depth fuel base (base + pages * page_size) b)
init_loop-conserves rounds depth fuel base zero b free k more deep_enough enough top out =
    rw (init_none rounds depth fuel base (base + 0 * page_size) b (omega arith) (omega arith))
      (record { after = free; is_free = k; covers = λ p. rw (within-none base p) (omega arith) })
init_loop-conserves zero depth fuel base (suc n) b free k more deep_enough enough top out =
    absurd (omega arith)
init_loop-conserves (suc rounds) depth fuel base (suc n) b free k more deep_enough enough top out =
    let size = suc n * page_size in
    let most = bytes_mono (get_order base) max_order (get_order-bound base) in
    rw (init_step rounds depth fuel base (base + size) b (omega arith) (omega (arith, most, top))) (
      Gives-bind (Lowered base (base + size) (get_order base)) (Given free base size)
        (lower_order (get_order base) (base + bytes (get_order base)) (base + size)) _
        (lower_order_lem (get_order base) base (base + size) (omega arith)
          (omega (arith, most, top)))
        λ r l.
          let o = r.0 in
          let le : bytes o ≤ size = omega (arith, l.inside) in
          let h : o ≤ max_order = omega (arith, l.bound, get_order-bound base) in
          let some_pages = bytes-positive o in
          let less : size - bytes o ≡ (suc n - 2 ^ o) * page_size = omega arith in
          let next : (base + bytes o) % 2 ^ 32 ≡ base + bytes o = omega (arith, top, le) in
          let same_end : base + size ≡ base + bytes o + (suc n - 2 ^ o) * page_size =
            omega (arith, less, le) in
          Gives-bind (Grown free base o) (Given free base size)
            (block_insert_merge depth fuel base o b) _
            (insert_merge-conserves depth fuel base o b free k h (omega (arith, deep_enough))
              (λ i. omega (arith, enough i)) (IsOwned-first o le out))
            λ g m.
              let owned : IsOwned m.after (base + bytes o) ((suc n - 2 ^ o) * page_size) =
                subst (λ a. IsOwned m.after a ((suc n - 2 ^ o) * page_size)) next
                  (subst (λ z. IsOwned m.after ((base + bytes o) % 2 ^ 32) z) less
                    (IsOwned-rest o le out m)) in
              rw (l.base, same_end)
                (Gives-map (Given m.after (base + bytes o) ((suc n - 2 ^ o) * page_size))
                  (Given free base size)
                  (init_loop rounds depth fuel (base + bytes o)
                    (base + bytes o + (suc n - 2 ^ o) * page_size) g)
                  (λ f q. Given-of_rest o le out m (rw (next, less) q))
                  (init_loop-conserves rounds depth fuel (base + bytes o) (suc n - 2 ^ o) g m.after
                    m.is_free (omega arith) deep_enough (λ i. omega (arith, enough i, m.longer i))
                    (omega (arith, same_end, top)) owned)))

cover-none : (n p : ℕ) → cover n (λ _. []) p ≡ 0
cover-none zero p = refl
cover-none (suc n) p = omega (arith, cover-none n p)

pub covered-none : (p : ℕ) → covered (λ _. []) p ≡ 0
unfolding covered
covered-none p = cover-none 11 p

-- Lists without blocks.
pub IsFree-none : (b : Blocks) → ((o : ℕ) → b.heads o ≡ null) → IsFree b (λ _. [])
IsFree-none b heads = record {
  rows = λ o h. record { head = heads o; nexts = tt; prevs = tt; distinct = tt; nonnull = refl };
  once = λ p. omega (arith, covered-none p);
  bounded = λ o a h is. absurd (false≢true is);
}

-- For memory of whole pages between `offset` and `size`, not at NULL and not in the last 4 MiB of
-- the addresses, `buddySystemCreate` and `buddyInit` end with well formed free lists, whose
-- blocks cover exactly that memory, each byte once.
pub create_init-fills :
    (rounds depth fuel p_addr v_addr size offset pages : ℕ) (memory : Blocks)
    → offset + pages * page_size ≡ size
    → pages < rounds
    → max_order < depth
    → pages ≤ fuel
    → 0 < v_addr + offset
    → v_addr + size + bytes max_order ≤ 2 ^ 32
    → Gives
        (λ g. Given (λ _. []) (v_addr + offset) (pages * page_size) g.blocks)
        (buddy_init rounds depth fuel (buddy_system_create p_addr v_addr size offset memory))
unfolding buddy_init buddy_system_create
create_init-fills rounds depth fuel p_addr v_addr size offset pages memory e more deep_enough enough
      some top =
    let base : (v_addr + offset) % 2 ^ 32 ≡ v_addr + offset = omega (arith, e, top) in
    let available : (size + 2 ^ 32 - offset) % 2 ^ 32 ≡ pages * page_size = omega (arith, e, top) in
    let end : (v_addr + offset + pages * page_size) % 2 ^ 32 ≡ v_addr + offset + pages * page_size =
      omega (arith, e, top) in
    let none = record memory { heads = λ _. null } in
    rw (base, available, end)
      (Gives-bind (Given (λ _. []) (v_addr + offset) (pages * page_size))
        (λ g. Given (λ _. []) (v_addr + offset) (pages * page_size) g.blocks)
        (init_loop rounds depth fuel (v_addr + offset) (v_addr + offset + pages * page_size) none) _
        (init_loop-conserves rounds depth fuel (v_addr + offset) pages none (λ _. [])
          (IsFree-none none λ o. refl) more deep_enough (λ i. omega (arith, enough))
          (omega (arith, e, top))
          (record {
            nonnull = λ h q. omega (arith, q, some);
            fits = omega (arith, e, top);
            fresh = λ p.
                omega (arith, covered-none p, within-bound (v_addr + offset) (pages * page_size) p);
          }))
        λ g m. m)
