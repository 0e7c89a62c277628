-- ===== src/Mmu.antt =====
-- MemoryVirtual2physical of arch/arm/mmu.c. `word` is the memory by the kernel's addresses, `p2l`
-- the function MemoryP2L. Masks and shifts are written as `/`, `*` and `%` by powers of two, and `|`
-- of parts without a common bit as `+`.
use ukernel_mp.Base.{
  ℕ, Bool, true, ◌≡◌, refl, sym, ap, ◌∙◌, ◌+◌, ◌-◌, ◌*◌, ◌/◌, ◌%◌, ◌^◌, ◌==◌, ◌&&◌, ◌||◌, arith,
  if◌then◌else◌,
}

-- Whether bit `n` of `x` is set.
abbrev pub bit : (x n : ℕ) → Bool
bit x n = x / 2 ^ n % 2 == 1

-- The address with the bits of `x` above bit `n`, and those of `v` below it.
abbrev pub joined : (n x v : ℕ) → ℕ
joined n x v = x / 2 ^ n * 2 ^ n + v % 2 ^ n

abbrev pub l1_entry : (ℕ → ℕ) → (pgt v : ℕ) → ℕ
l1_entry word pgt v = word (pgt + v / 2 ^ 20 * 4)

abbrev pub l2_entry : (ℕ → ℕ) → (ℕ → ℕ) → (entry v : ℕ) → ℕ
l2_entry word p2l entry v = word (p2l (entry / 2 ^ 10 * 2 ^ 10 + v / 2 ^ 12 % 2 ^ 8 * 4))

-- With an entry of the second level.
abbrev pub page_address : (entry v : ℕ) → ℕ
page_address entry v =
    if bit entry 1 then joined 12 entry v else if bit entry 0 then joined 16 entry v else 0

-- With an entry of the first level, and the one of the second that it leads to.
abbrev pub address : (entry second v : ℕ) → ℕ
address entry second v =
    if bit entry 1
    then (if bit entry 18 then joined 24 entry v else joined 20 entry v)
    else (if bit entry 0 then page_address second v else 0)

unfoldable pub memory_virtual2physical : (word p2l : ℕ → ℕ) → (pgt v : ℕ) → ℕ
memory_virtual2physical word p2l pgt v =
    let entry = l1_entry word pgt v in address entry (l2_entry word p2l entry v) v

-- Whether the tables have a page for the address.
abbrev pub has_page : (entry second : ℕ) → Bool
has_page entry second = bit entry 1 || (bit entry 0 && (bit second 1 || bit second 0))

abbrev pub is_mapped : (word p2l : ℕ → ℕ) → (pgt v : ℕ) → Bool
is_mapped word p2l pgt v =
    let entry = l1_entry word pgt v in has_page entry (l2_entry word p2l entry v)

module _ (entry second v : ℕ) (mapped : has_page entry second ≡ true) where
  address-page : address entry second v ≡ address entry second (v - v % 4096) + v % 4096
  address-page = ground arith

  address-aligned : address entry second (v - v % 4096) % 4096 ≡ 0
  address-aligned = ground arith

module _ (word p2l : ℕ → ℕ) (pgt v : ℕ) (mapped : is_mapped word p2l pgt v ≡ true) where
  -- The tables have the same entries for all of a page.
  same_l1 : l1_entry word pgt (v - v % 4096) ≡ l1_entry word pgt v
  same_l1 = ap word (omega arith)

  same_l2 : (entry : ℕ) → l2_entry word p2l entry (v - v % 4096) ≡ l2_entry word p2l entry v
  same_l2 entry =
      let e : (v - v % 4096) / 2 ^ 12 % 2 ^ 8 ≡ v / 2 ^ 12 % 2 ^ 8 = omega arith in rw e refl

  of_page :
      memory_virtual2physical word p2l pgt (v - v % 4096)
      ≡ address (l1_entry word pgt v) (l2_entry word p2l (l1_entry word pgt v) v) (v - v % 4096)
  unfolding memory_virtual2physical
  of_page = rw (same_l1, same_l2 (l1_entry word pgt v)) refl

  pub virtual2physical-page :
      memory_virtual2physical word p2l pgt v
      ≡ memory_virtual2physical word p2l pgt (v - v % 4096) + v % 4096
  unfolding memory_virtual2physical
  virtual2physical-page =
      address-page (l1_entry word pgt v) (l2_entry word p2l (l1_entry word pgt v) v) v mapped
      ∙ ap (λ p. p + v % 4096) (sym of_page)

  pub virtual2physical-aligned : memory_virtual2physical word p2l pgt (v - v % 4096) % 4096 ≡ 0
  virtual2physical-aligned =
      ap (λ p. p % 4096) of_page
      ∙ address-aligned (l1_entry word pgt v) (l2_entry word p2l (l1_entry word pgt v) v) v mapped
