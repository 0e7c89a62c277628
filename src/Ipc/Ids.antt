-- ===== src/Ipc/Ids.antt =====
-- The identifiers of messages of kernel/ipc_2.c.
use Prim.Native.Nat.{max, bit_or, digits, bit_or-bitwise}
use native.Mathlib.Nat.{mul_assoc}
use ukernel_mp.Base.{
  ℕ, zero, suc, ◌≡◌, ◌≤◌, ◌<◌, ◌+◌, ◌-◌, ◌*◌, ◌/◌, ◌%◌, ◌^◌, refl, ◌∙◌, sym, arith,
}
use ukernel_mp.Ipc.Send.{rcvid_of, msg_id, msg_chid}

-- The digits of `bit_or`, with a bound on their number.
abbrev or_digits : ℕ → ℕ → ℕ → ℕ
or_digits n a b = digits (λ b. b) max n a b

or_digits-zero : (n b : ℕ) → or_digits n 0 b ≡ b
or_digits-zero zero b = refl
or_digits-zero (suc n) b = refl

max-zero : (b : ℕ) → max 0 b ≡ b
max-zero b = omega arith

-- An even number leaves the lowest digit to the other one.
or_digits-even : (n x b : ℕ) → or_digits (suc n) (x * 2) b ≡ or_digits n x (b / 2) * 2 + b % 2
or_digits-even n zero b = omega (arith, or_digits-zero n (b / 2))
or_digits-even n (suc x) b =
    let e : suc x * 2 ≡ suc (suc (x * 2)) = omega arith in
    let half : suc (suc (x * 2)) / 2 ≡ suc x = omega arith in
    let low : suc (suc (x * 2)) % 2 ≡ 0 = omega arith in rw (e, half, low, max-zero (b % 2)) refl

or_digits-none : (n a : ℕ) → a ≤ n → or_digits n a 0 ≡ a
or_digits-none zero zero le = refl
or_digits-none zero (suc a) le = absurd (omega arith)
or_digits-none (suc n) zero le = refl
or_digits-none (suc n) (suc a) le =
    let low : max (suc a % 2) (0 % 2) ≡ suc a % 2 = omega arith in
    rw (low) (omega (arith, or_digits-none n (suc a / 2) (omega arith)))

pow : ℕ → ℕ
pow zero = 1
pow (suc k) = pow k * 2

more :
    (k n c b : ℕ)
    → c * pow k * 2 ≤ n
    → b < pow k * 2
    → ((n c b : ℕ) → c * pow k ≤ n → b < pow k → or_digits n (c * pow k) b ≡ c * pow k + b)
    → or_digits n (c * pow k * 2) b ≡ c * pow k * 2 + b
more k zero c b le lt below = let none : c * pow k * 2 ≡ 0 = omega arith in rw none (omega arith)
more k (suc n) c b le lt below =
    or_digits-even n (c * pow k) b ∙ omega (arith, below n c (b / 2) (omega arith) (omega arith))

-- Without a common digit the result is the sum.
or_digits-add :
    (k n c b : ℕ) → c * pow k ≤ n → b < pow k → or_digits n (c * pow k) b ≡ c * pow k + b
unfolding pow
or_digits-add zero n c b le lt =
    let whole : c * 1 ≡ c = omega arith in
    let none : b ≡ 0 = omega arith in
    rw (whole, none) (or_digits-none n c (omega (arith, le)) ∙ omega arith)
or_digits-add (suc k) n c b le lt =
    let x = c * pow k in
    let whole : c * (pow k * 2) ≡ x * 2 = sym (mul_assoc c (pow k) 2) in
    rw whole (more k n c b (omega (arith, le, whole)) (omega arith) (or_digits-add k))

bit_or-add : (c b : ℕ) → b < 2 ^ 16 → bit_or (c * 2 ^ 16) b ≡ c * 2 ^ 16 + b
unfolding pow
bit_or-add c b lt =
    bit_or-bitwise (c * 2 ^ 16) b ∙ or_digits-add 16 (c * 2 ^ 16) c b (omega arith) lt

-- Of the identifier that a receiver gets for message `id` of channel `chid`, MSGCHID and MSGID give
-- the two back, for a channel below 2 ^ 15 and a message below 2 ^ 16 - 1.
pub msg_id-rcvid_of :
    (chid id : ℕ)
    → chid < 2 ^ 15
    → id < 2 ^ 16 - 1
    → (msg_chid (rcvid_of chid id) ≡ chid) × (msg_id (rcvid_of chid id) ≡ id)
unfolding rcvid_of msg_id msg_chid
msg_id-rcvid_of chid id small room =
    let high : chid * 2 ^ 16 % 2 ^ 32 ≡ chid * 2 ^ 16 = omega arith in
    let low : (id + 1) % 2 ^ 32 ≡ id + 1 = omega arith in
    let word = bit_or-add chid (id + 1) (omega arith) in
    rw (high, low, word) (ground arith, omega arith)
