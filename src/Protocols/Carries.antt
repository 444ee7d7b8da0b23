-- ===== src/Protocols/Carries.antt =====
-- The loop of proto_checksum that adds the carries.
use rflpc.Base.{
  ℕ, suc, ◌+◌, ◌*◌, ◌/◌, ◌%◌, ◌^◌, ◌-◌, ◌<◌, ◌≤◌, ◌==◌, ◌≡◌, ◌≢◌, refl, ap, ◌∙◌, ◌⊎◌, inl, inr,
  bit_and, bit_or, some, true, false, arith,
}
use rflpc.Base.Bits.{
  bit_at, bit_at-lt, bit_at_zero, bit_at-bit_and, bit_at-bit_or, bit_at-shl, bit_at-shl_low,
  bit_at-complement, bit_at_above, eq_of_bits, bit_and-lt, bit_or-lt, bit_and-mask, bit_or-add,
}
use rflpc.Base.Word.{u32, shr}
use rflpc.Protocols.Checksum.{add_carries}

bit_high : (c j k : ℕ) → k ≡ 16 + j → bit_at c k ≡ bit_at (c / 2 ^ 16) j
bit_high c j k e =
    let q = c / 2 ^ 16 in
    let r = c % 2 ^ 16 in
    let parts : c ≡ bit_or (q * 2 ^ 16) r = omega (arith, bit_or-add 16 q r (omega arith)) in
    ap (λ x. bit_at x k) parts
    ∙ omega (
      arith,
      bit_at-bit_or (q * 2 ^ 16) r k,
      bit_at-shl 16 q j k e,
      bit_at_above 16 r k (omega arith) (omega arith),
    )

bit_mask : (j k : ℕ) → j < 16 → k ≡ 16 + j → bit_at 0xffff0000 k ≡ 1
bit_mask j k h e =
    omega
      (arith, bit_at-shl 16 0xffff j k e, bit_at-complement 16 0 j (omega arith) h, bit_at_zero j)

-- The mask keeps the upper half of a word.
high_mask : (c : ℕ) → c < 2 ^ 32 → bit_and c 0xffff0000 ≡ c / 2 ^ 16 * 2 ^ 16
high_mask c h =
    let q = c / 2 ^ 16 in
    eq_of_bits 32 (bit_and c 0xffff0000) (q * 2 ^ 16) (bit_and-lt 32 c 0xffff0000 h) (omega arith)
      λ k hk. ground (
        arith,
        bit_at-bit_and c 0xffff0000 k,
        λ (p : k < 16). bit_at-shl_low 16 0xffff k p,
        λ (p : k < 16). bit_at-shl_low 16 q k p,
        λ (p : 16 ≤ k). bit_mask (k - 16) k (omega arith) (omega arith),
        λ (p : 16 ≤ k). bit_high c (k - 16) k (omega arith),
        λ (p : 16 ≤ k). bit_at-shl 16 q (k - 16) k (omega arith),
        bit_at-lt c k,
      )

pub bit_or_comm : (w a b : ℕ) → a < 2 ^ w → b < 2 ^ w → bit_or a b ≡ bit_or b a
bit_or_comm w a b ha hb =
    eq_of_bits w (bit_or a b) (bit_or b a) (bit_or-lt w a b ha hb) (bit_or-lt w b a hb ha)
      λ k hk. omega (arith, bit_at-bit_or a b k, bit_at-bit_or b a k)

-- One round of the carry loop keeps the sum modulo 65535.
add_carries_once :
    (fuel c : ℕ)
    → c < 2 ^ 32
    → 2 ^ 16 ≤ c
    → add_carries (suc fuel) c ≡ add_carries fuel (c % 2 ^ 16 + c / 2 ^ 16)
unfolding add_carries
add_carries_once fuel c small large =
    let low : bit_and c 0xffff ≡ c % 2 ^ 16 = bit_and-mask 16 c in
    let high : bit_and (shr c 16) 0xffff ≡ c / 2 ^ 16 = omega (arith, bit_and-mask 16 (shr c 16)) in
    let sum : u32 (bit_and c 0xffff + bit_and (shr c 16) 0xffff) ≡ c % 2 ^ 16 + c / 2 ^ 16 =
      omega (arith, low, high) in
    let more : (bit_and c 0xffff0000 == 0) ≡ false = ground (arith, high_mask c small) in
    rw (more, sum) refl

add_carries_end : (fuel c : ℕ) → c < 2 ^ 16 → add_carries (suc fuel) c ≡ some c
unfolding add_carries
add_carries_end fuel c small =
    let over : (bit_and c 0xffff0000 == 0) ≡ true = ground (arith, high_mask c (omega arith)) in
    rw over refl

-- What is left of a word of 32 bits after the carries: a word of 16 bits, equal modulo 65535, and 0 only for 0.
pub record IsFolded (c r : ℕ) : Type 0 where
  pub word : r < 2 ^ 16
  pub rest : r % 65535 ≡ c % 65535
  pub positive : ((r ≢ 0) × (c ≢ 0)) ⊎ ((r ≡ 0) × (c ≡ 0))

below : (c n : ℕ) → (c < n) ⊎ (n ≤ c)
below c n = ground arith

pub add_carries-IsFolded :
    (c : ℕ) → c < 2 ^ 32 → (r : ℕ) × (add_carries 3 c ≡ some r) × IsFolded c r
add_carries-IsFolded c small =
    let c1 = c % 2 ^ 16 + c / 2 ^ 16 in
    let c2 = c1 % 2 ^ 16 + c1 / 2 ^ 16 in
    elim (below c (2 ^ 16)) [
      | inl p ↦ (c, add_carries_end 2 c p, ground arith)
      | inr p ↦ elim (below c1 (2 ^ 16)) [
        | inl q ↦ (c1, add_carries_once 2 c small p ∙ add_carries_end 1 c1 q, ground arith)
        | inr q ↦ (
          c2,
          add_carries_once 2 c small p
              ∙ add_carries_once 1 c1 (omega arith) q
              ∙ add_carries_end 0 c2 (omega arith),
          ground arith,
        )
      ]
    ]
