-- ===== src/Ipc/Pages.antt =====
-- The copies of kernel/ipc_2.c by pages against a copy byte by byte.
use ukernel_mp.Base.{
  ℕ, zero, suc, ◌≡◌, ◌≤◌, ◌<◌, ◌+◌, ◌-◌, ◌%◌, ◌^◌, ◌⊎◌, refl, sym, ap, ◌∙◌, arith, some, ltb,
  ltb→lt, update, Bool-cases, inl, inr, true,
}
use ukernel_mp.Mmu.{
  memory_virtual2physical, is_mapped, virtual2physical-page, virtual2physical-aligned,
}
use ukernel_mp.Ipc.Copy.{
  page_size, msg_copy, buffer, first_part, next_part, map_loop, map_copy, msg_map_receiver_copy,
  msg_map_sender_copy,
}

-- From `i` and from `j` on, `n` bytes are at the same addresses.
abbrev Agree : ℕ → (f g : ℕ → ℕ) → (i j : ℕ) → Type 0
Agree n f g i j = (k : ℕ) → k < n → f (i + k) ≡ g (j + k)

Agree-head : (n : ℕ) (f g : ℕ → ℕ) (i j : ℕ) → Agree (suc n) f g i j → f i ≡ g j
Agree-head n f g i j h =
    let a : i + 0 ≡ i = omega arith in
    let b : j + 0 ≡ j = omega arith in ap f (sym a) ∙ h 0 (omega arith) ∙ ap g b

Agree-tail : (n : ℕ) (f g : ℕ → ℕ) (i j : ℕ) → Agree (suc n) f g i j → Agree n f g (suc i) (suc j)
Agree-tail n f g i j h k lt =
    let a : suc i + k ≡ i + suc k = omega arith in
    let b : suc j + k ≡ j + suc k = omega arith in ap f a ∙ h (suc k) (omega arith) ∙ ap g (sym b)

-- A copy depends on the addresses of its bytes only.
msg_copy-same :
    (n : ℕ) (from from' to to' : ℕ → ℕ) (i j : ℕ) (b : ℕ → ℕ)
    → Agree n from from' i j
    → Agree n to to' i j
    → msg_copy n from to i b ≡ msg_copy n from' to' j b
unfolding msg_copy
msg_copy-same zero from from' to to' i j b f t = refl
msg_copy-same (suc n) from from' to to' i j b f t =
    rw (Agree-head n from from' i j f, Agree-head n to to' i j t)
      (msg_copy-same n from from' to to' (suc i) (suc j) _ (Agree-tail n from from' i j f)
        (Agree-tail n to to' i j t))

-- A copy in two parts.
msg_copy-add :
    (m n : ℕ) (from to : ℕ → ℕ) (i : ℕ) (b : ℕ → ℕ)
    → msg_copy (m + n) from to i b ≡ msg_copy n from to (i + m) (msg_copy m from to i b)
unfolding msg_copy
msg_copy-add zero n from to i b =
    let e : 0 + n ≡ n = omega arith in let f : i + 0 ≡ i = omega arith in rw (e, f) refl
msg_copy-add (suc m) n from to i b =
    let e : suc m + n ≡ suc (m + n) = omega arith in
    let f : i + suc m ≡ suc i + m = omega arith in
    rw (e, f) (msg_copy-add m n from to (suc i) (update b (to i) (b (from i))))

-- The pages of the `size` addresses from `start` on go to pages.
pub record IsPaged (phys : ℕ → ℕ) (start size : ℕ) : Type 0 where
  pub page :
      (v : ℕ) → start ≤ v → v < start + size → phys v ≡ phys (v - v % page_size) + v % page_size
  pub aligned : (v : ℕ) → start ≤ v → v < start + size → phys (v - v % page_size) % page_size ≡ 0

module _ (copy : ℕ → ℕ → (ℕ → ℕ) → (ℕ → ℕ) → (ℕ → ℕ)) (phys : ℕ → ℕ) (start size : ℕ)
    (from to : ℕ → ℕ) (paged : IsPaged phys start size)
    (is_copy : (n m : ℕ) (page : ℕ → ℕ) (b : ℕ → ℕ)
      → m + n ≤ size
      → Agree n page (λ i. phys (start + i)) 0 m
      → copy n m page b ≡ msg_copy n from to m b)
    (room : start + size ≤ 2 ^ 32) (small : size + page_size < 2 ^ 32) where
  -- The variables of the loop with `mapped` at `m` in front of a part.
  record IsPart (m a v n bp : ℕ) : Type 0 where
    at : v ≡ start + m
    off : v % page_size ≡ a
    page : bp ≡ phys (v - a)
    nonempty : 0 < n
    fits : a + n ≤ page_size
    within : m + n ≤ size
    full : (a + n ≡ page_size) ⊎ (m + n ≡ size)

  in_page :
      (m a v n bp : ℕ) → IsPart m a v n bp → Agree n (λ i. bp + a + i) (λ i. phys (start + i)) 0 m
  in_page m a v n bp p k lt =
      let w = start + (m + k) in
      let off : w % page_size ≡ a + k = omega (arith, p.at, p.off, p.fits) in
      let base : w - w % page_size ≡ v - a = omega (arith, p.at, p.off, p.fits) in
      let here : phys w ≡ phys (w - w % page_size) + w % page_size =
        paged.page w (omega arith) (omega (arith, p.within)) in
      omega (arith, here, off, ap phys base, p.page)

  next_full :
      (m : ℕ) → m < size → (0 + next_part size m ≡ page_size) ⊎ (m + next_part size m ≡ size)
  next_full m lt = elim (Bool-cases (ltb size ((m + page_size) % 2 ^ 32))) [
    | inl e ↦ inr (rw e (omega arith))
    | inr e ↦ inl (rw e refl)
  ]

  next :
      (m a v n bp : ℕ)
      → IsPart m a v n bp
      → m + n < size
      → IsPart (m + n) 0 ((v + n) % 2 ^ 32) (next_part size (m + n)) (phys ((v + n) % 2 ^ 32))
  next m a v n bp p lt =
      let end : a + n ≡ page_size = elim p.full [ inl e ↦ e | inr e ↦ absurd (omega arith) ] in
      let w = (v + n) % 2 ^ 32 in
      let at : w ≡ start + (m + n) = omega (arith, p.at) in
      record {
        at = at;
        off = omega (arith, p.at, p.off, end);
        page = ap phys (omega arith);
        nonempty = ground arith;
        fits = ground arith;
        within = ground arith;
        full = next_full (m + n) lt;
      }

  msg_copy-none : (n m : ℕ) (b : ℕ → ℕ) → n ≡ 0 → b ≡ msg_copy n from to m b
  unfolding msg_copy
  msg_copy-none zero m b e = refl
  msg_copy-none (suc n) m b e = absurd (omega arith)

  -- A part, and the rest of the copy.
  part :
      (fuel m a v n bp : ℕ) (b : ℕ → ℕ)
      → IsPart m a v n bp
      → map_loop fuel copy phys size
          (m + n)
          0
          ((v + n) % 2 ^ 32)
          (next_part size (m + n))
          (phys ((v + n) % 2 ^ 32))
          (copy n m (λ i. bp + a + i) b)
        ≡ some (msg_copy (size - (m + n)) from to (m + n) (copy n m (λ i. bp + a + i) b))
      → map_loop fuel copy phys size
          ((m + n) % 2 ^ 32)
          0
          ((v + n) % 2 ^ 32)
          (next_part size ((m + n) % 2 ^ 32))
          (phys ((v + n) % 2 ^ 32))
          (copy n m (λ i. bp + a + i) b)
        ≡ some (msg_copy (size - m) from to m b)
  part fuel m a v n bp b p rest =
      let whole : (m + n) % 2 ^ 32 ≡ m + n = omega (arith, p.within) in
      let sum : size - m ≡ n + (size - (m + n)) = omega (arith, p.within) in
      rw (whole, rest, sum, msg_copy-add n (size - (m + n)) from to m b)
        (rw (is_copy n m (λ i. bp + a + i) b p.within (in_page m a v n bp p)) refl)

  loop_lem :
      (fuel m a v n bp : ℕ) (b : ℕ → ℕ)
      → (m < size → IsPart m a v n bp)
      → m ≤ size
      → size - m < fuel
      → map_loop fuel copy phys size m a v n bp b ≡ some (msg_copy (size - m) from to m b)
  unfolding map_loop
  loop_lem zero m a v n bp b p le enough = absurd (omega arith)
  loop_lem (suc fuel) m a v n bp b p le enough = elim (Bool-cases (ltb m size)) [
    | inl more ↦ rw more (
        part fuel m a v n bp b (p (ltb→lt m size more)) (
          loop_lem fuel (m + n) 0 ((v + n) % 2 ^ 32) (next_part size (m + n))
            (phys ((v + n) % 2 ^ 32)) (copy n m (λ i. bp + a + i) b)
            (next m a v n bp (p (ltb→lt m size more))) (p (ltb→lt m size more)).within
            (omega
              (arith, enough, (p (ltb→lt m size more)).within, (p (ltb→lt m size more)).nonempty))))
    | inr end ↦ rw end (
        let none_left : size - m ≡ 0 = ground arith in
        ap some (msg_copy-none (size - m) m b none_left))
  ]

  first_full :
      (a : ℕ) → a < page_size → (a + first_part size a ≡ page_size) ⊎ (0 + first_part size a ≡ size)
  first_full a lt = elim (Bool-cases (ltb size (page_size - a))) [
    | inl e ↦ inr (rw e (omega arith))
    | inr e ↦ inl (rw e (omega arith))
  ]

  -- In front of the loop.
  first :
      0 < size
      → IsPart 0
          (phys start % page_size)
          start
          (first_part size (phys start % page_size))
          (phys start - phys start % page_size)
  first some_byte =
      let here : phys start ≡ phys (start - start % page_size) + start % page_size =
        paged.page start (omega arith) (omega arith) in
      let off : phys start % page_size ≡ start % page_size =
        omega (arith, here, paged.aligned start (omega arith) (omega arith)) in
      record {
        at = omega arith;
        off = sym off;
        page = rw off (omega (arith, here));
        nonempty = ground arith;
        fits = ground arith;
        within = ground arith;
        full = first_full (phys start % page_size) (omega arith);
      }

  -- With fuel for every byte the copy by pages is the copy of the bytes.
  map_copy-bytes :
      (fuel base off : ℕ) (b : ℕ → ℕ)
      → (base + off) % 2 ^ 32 ≡ start
      → size < fuel
      → map_copy fuel copy phys base off size b ≡ some (msg_copy size from to 0 b)
  unfolding map_copy
  map_copy-bytes fuel base off b at enough =
      let all : size - 0 ≡ size = omega arith in
      rw at (
        loop_lem fuel 0 (phys start % page_size) start (first_part size (phys start % page_size))
          (phys start - phys start % page_size) b first (omega arith) (omega (arith, enough))
        ∙ ap (λ n. some (msg_copy n from to 0 b)) all)

-- The buffer at `base` from `off` on ends within the addresses.
pub record Fits (base off size : ℕ) : Type 0 where
  pub room : (base + off) % 2 ^ 32 + size ≤ 2 ^ 32
  pub small : size + page_size < 2 ^ 32

buffer_lem :
    (phys : ℕ → ℕ) (base off size i : ℕ)
    → Fits base off size
    → i < size
    → phys ((base + off) % 2 ^ 32 + i) ≡ buffer phys base off i
buffer_lem phys base off size i fits lt = ap phys (omega (arith, fits.room))

same_buffer :
    (own : ℕ → ℕ) (base off m k : ℕ)
    → buffer own base off (m + (0 + k)) ≡ buffer own base off (m + k)
same_buffer own base off m k = ap (buffer own base off) (omega arith)

-- A buffer of another process, with its page table.
module _ (word p2l : ℕ → ℕ) (pgt base off size : ℕ) where
  -- It has a page for every address, ends within the addresses, and is a page shorter than 2 ^ 32.
  pub record IsBuffer : Type 0 where
    pub mapped :
        (v : ℕ)
        → (base + off) % 2 ^ 32 ≤ v
        → v < (base + off) % 2 ^ 32 + size
        → is_mapped word p2l pgt v ≡ true
    pub fits : Fits base off size

  IsBuffer-IsPaged :
      IsBuffer → IsPaged (memory_virtual2physical word p2l pgt) ((base + off) % 2 ^ 32) size
  IsBuffer-IsPaged up = record {
    page = λ v le lt. virtual2physical-page word p2l pgt v (up.mapped v le lt);
    aligned = λ v le lt. virtual2physical-aligned word p2l pgt v (up.mapped v le lt);
  }

module _ (own word p2l : ℕ → ℕ) (pgt send send_off recv rcv_off size fuel : ℕ) (b : ℕ → ℕ) where
  -- The other process's addresses.
  abbrev pub phys : ℕ → ℕ
  phys = memory_virtual2physical word p2l pgt

  -- Where the page table of the other process has a page for every address of its buffer, which
  -- ends within the addresses and is a page shorter than 2 ^ 32, and the fuel is more than the
  -- bytes, `MsgMapReceiverCopy` ends, and does what a copy of the bytes, one by one in order,
  -- does.
  pub map_receiver_copy-bytes :
      IsBuffer word p2l pgt recv rcv_off size
      → size < fuel
      → msg_map_receiver_copy fuel own phys send send_off recv rcv_off size b
        ≡ some (msg_copy size (buffer own send send_off) (buffer phys recv rcv_off) 0 b)
  unfolding msg_map_receiver_copy
  map_receiver_copy-bytes up enough =
      map_copy-bytes _ phys ((recv + rcv_off) % 2 ^ 32) size (buffer own send send_off)
        (buffer phys recv rcv_off) (IsBuffer-IsPaged word p2l pgt recv rcv_off size up)
        (λ n m page b' within same.
          msg_copy-same n _ _ _ _ 0 m b' (λ k lt. same_buffer own send send_off m k)
            (λ k lt. same k lt ∙ buffer_lem phys recv rcv_off size (m + k) up.fits (omega arith)))
        up.fits.room up.fits.small fuel recv rcv_off b refl enough

  -- Where the page table of the other process has a page for every address of its buffer, which
  -- ends within the addresses and is a page shorter than 2 ^ 32, and the fuel is more than the
  -- bytes, `MsgMapSenderCopy` ends, and does what a copy of the bytes, one by one in order,
  -- does.
  pub map_sender_copy-bytes :
      IsBuffer word p2l pgt send send_off size
      → size < fuel
      → msg_map_sender_copy fuel own phys send send_off recv rcv_off size b
        ≡ some (msg_copy size (buffer phys send send_off) (buffer own recv rcv_off) 0 b)
  unfolding msg_map_sender_copy
  map_sender_copy-bytes up enough =
      map_copy-bytes _ phys ((send + send_off) % 2 ^ 32) size (buffer phys send send_off)
        (buffer own recv rcv_off) (IsBuffer-IsPaged word p2l pgt send send_off size up)
        (λ n m page b' within same.
          msg_copy-same n _ _ _ _ 0 m b'
            (λ k lt. same k lt ∙ buffer_lem phys send send_off size (m + k) up.fits (omega arith))
            (λ k lt. same_buffer own recv rcv_off m k))
        up.fits.room up.fits.small fuel send send_off b refl enough
