-- ===== src/Base/Word.antt =====
-- 32-bit words: shifts, complement, and the bit and field updates of tools.h.
use Prim.Native.Nat.{ℕ, zero, suc, ◌+◌, ◌-◌, ◌*◌, ◌/◌, ◌%◌, ◌^◌, ◌≤◌, ◌<◌, bit_and, bit_or}
use mathlib.Core.Path.{◌≡◌, refl, sym, ap, ap₂, ◌∙◌}
use mathlib.Core.Bool.{◌&&◌}
use native.Mathlib.Nat.{div-div-eq-div-mul, one-le-pow, pow-suc, pow-le-pow_right}
use native.Mathlib.Omega.{arith}
use rflpc.Base.Tests.{ltb, leb, ◌==◌, if◌then◌else◌}
use rflpc.Base.Bits.{
  bit_at, bit_at-lt, bit_at_zero, bit_at-bit_and, bit_at-bit_or, bit_at-shl, bit_at-shl_low,
  bit_at-complement, bit_at_above, bit_or-lt, bit_and-lt, bit_and-le, bit_and-mask, eq_of_bits,
}

abbrev pub u8 : ℕ → ℕ
u8 x = x % 2 ^ 8

abbrev pub u16 : ℕ → ℕ
u16 x = x % 2 ^ 16

abbrev pub u32 : ℕ → ℕ
u32 x = x % 2 ^ 32

-- `v << s`, before any cut to a width, and `v >> s`.
abbrev pub shl : ℕ → ℕ → ℕ
shl v s = v * 2 ^ s

abbrev pub shr : ℕ → ℕ → ℕ
shr v s = v / 2 ^ s

-- `~x` for a `uint32_t`
abbrev pub not32 : ℕ → ℕ
not32 x = 2 ^ 32 - 1 - x

-- `(val) |= (1UL << (bit))`
unfoldable pub set_bit : ℕ → ℕ → ℕ
set_bit r n = bit_or r (shl 1 n)

-- `(val) &= ~(1UL << (bit))`
unfoldable pub clr_bit : ℕ → ℕ → ℕ
clr_bit r n = bit_and r (not32 (shl 1 n))

-- `r & ~(((1 << w) - 1) << s)`: the `w` bits from `s` on are cleared.
unfoldable pub clr_field : ℕ → ℕ → ℕ → ℕ
clr_field r s w = bit_and r (not32 (shl (2 ^ w - 1) s))

-- The field is cleared, then `v << s` is put in.
unfoldable pub put_field : ℕ → ℕ → ℕ → ℕ → ℕ
unfolding clr_field
put_field r s w v = bit_or (clr_field r s w) (shl v s)

-- `RFLPC_SET_BITS_VAL`: the value is cut to the field.
unfoldable pub set_bits_val : ℕ → ℕ → ℕ → ℕ → ℕ
unfolding clr_field
set_bits_val r s v w = bit_or (clr_field r s w) (bit_and (shl v s) (shl (2 ^ w - 1) s))

-- A number of `w` bits moved up by `s` fits `n` bits.
shl_fits : (s n w v : ℕ) → s + w ≤ n → v < 2 ^ w → shl v s < 2 ^ n
shl_fits zero n w v h hv =
    omega (arith, pow-le-pow_right {n = 2} (omega arith) {i = w} {j = n} (omega arith))
shl_fits (suc s) zero w v h hv = absurd (omega arith)
shl_fits (suc s) (suc n) w v h hv =
    omega
      (arith, ap (λ (t : ℕ). v * t) (pow-suc 2 s), pow-suc 2 n, shl_fits s n w v (omega arith) hv)

bit_at_one : (k : ℕ) → bit_at 1 k ≡ (if k == 0 then 1 else 0)
bit_at_one zero = refl
bit_at_one (suc k) = ground (arith, bit_at_zero k)

pub bit_at-shl_one : (n k : ℕ) → bit_at (shl 1 n) k ≡ (if k == n then 1 else 0)
bit_at-shl_one n k =
    ground (arith, bit_at-shl_low n 1 k, bit_at-shl n 1 (k - n) k, bit_at_one (k - n))

-- Setting a bit sets it and no other.
pub bit_at-set_bit : (r n k : ℕ) → bit_at (set_bit r n) k ≡ (if k == n then 1 else bit_at r k)
unfolding set_bit
bit_at-set_bit r n k =
    ground (arith, bit_at-bit_or r (shl 1 n) k, bit_at-shl_one n k, bit_at-lt r k)

pub bit_at_ones : (w j : ℕ) → bit_at (2 ^ w - 1) j ≡ (if ltb j w then 1 else 0)
bit_at_ones w j =
    ground
      (arith, bit_at-complement w 0 j, bit_at_zero j, bit_at_above w (2 ^ w - 1) j, one-le-pow w 2)

-- Clearing a bit of a 32-bit word clears it and no other.
pub bit_at-clr_bit :
    (r n k : ℕ) → n < 32 → k < 32 → bit_at (clr_bit r n) k ≡ (if k == n then 0 else bit_at r k)
unfolding clr_bit
bit_at-clr_bit r n k hn hk = ground (
  arith,
  bit_at-bit_and r (not32 (shl 1 n)) k,
  bit_at-complement 32 (shl 1 n) k (shl_fits n 32 1 1 (omega arith) (omega arith)) hk,
  bit_at-shl_one n k,
  bit_at-lt r k,
)

-- The bits of a shifted field.
pub bit_at-shl_field :
    (s w v k : ℕ)
    → v < 2 ^ w
    → bit_at (shl v s) k ≡ (if leb s k && ltb k (s + w) then bit_at v (k - s) else 0)
bit_at-shl_field s w v k hv =
    ground (arith, bit_at-shl_low s v k, bit_at-shl s v (k - s) k, bit_at_above w v (k - s) hv)

-- A field is put in whole, and no bit outside it changes.
pub bit_at-put_field :
    (r s w v k : ℕ)
    → s + w ≤ 32
    → v < 2 ^ w
    → k < 32
    → bit_at (put_field r s w v) k
      ≡ (if leb s k && ltb k (s + w) then bit_at v (k - s) else bit_at r k)
unfolding put_field
bit_at-put_field r s w v k hs hv hk = ground (
  arith,
  bit_at-bit_or (bit_and r (not32 (shl (2 ^ w - 1) s))) (shl v s) k,
  bit_at-bit_and r (not32 (shl (2 ^ w - 1) s)) k,
  bit_at-complement 32 (shl (2 ^ w - 1) s) k
      (shl_fits s 32 w (2 ^ w - 1) hs (omega (arith, one-le-pow w 2))) hk,
  bit_at-shl_field s w v k hv,
  bit_at-shl_field s w (2 ^ w - 1) k (omega (arith, one-le-pow w 2)),
  bit_at_ones w (k - s),
  bit_at-lt r k,
  bit_at-lt v (k - s),
)

-- The macro puts the low bits of its value into the field, and leaves the bits outside it.
pub bit_at-set_bits_val :
    (r s v w k : ℕ)
    → s + w ≤ 32
    → k < 32
    → bit_at (set_bits_val r s v w) k
      ≡ (if leb s k && ltb k (s + w) then bit_at v (k - s) else bit_at r k)
unfolding set_bits_val
bit_at-set_bits_val r s v w k hs hk =
    let mask = shl (2 ^ w - 1) s in
    ground (
      arith,
      bit_at-bit_or (bit_and r (not32 mask)) (bit_and (shl v s) mask) k,
      bit_at-bit_and r (not32 mask) k,
      bit_at-bit_and (shl v s) mask k,
      bit_at-complement 32 mask k (shl_fits s 32 w (2 ^ w - 1) hs (omega (arith, one-le-pow w 2)))
          hk,
      bit_at-shl s v (k - s) k,
      bit_at-shl_field s w (2 ^ w - 1) k (omega (arith, one-le-pow w 2)),
      bit_at_ones w (k - s),
      bit_at-lt r k,
      bit_at-lt v (k - s),
    )

pub set_bit-lt : (r n : ℕ) → r < 2 ^ 32 → n < 32 → set_bit r n < 2 ^ 32
unfolding set_bit
set_bit-lt r n hr hn = bit_or-lt 32 r (shl 1 n) hr (shl_fits n 32 1 1 (omega arith) (omega arith))

pub clr_bit-lt : (r n : ℕ) → r < 2 ^ 32 → clr_bit r n < 2 ^ 32
unfolding clr_bit
clr_bit-lt r n hr = bit_and-lt 32 r (not32 (shl 1 n)) hr

pub put_field-lt : (r s w v : ℕ) → r < 2 ^ 32 → s + w ≤ 32 → v < 2 ^ w → put_field r s w v < 2 ^ 32
unfolding put_field
put_field-lt r s w v hr hs hv =
    bit_or-lt 32 (clr_field r s w) (shl v s) (bit_and-lt 32 r (not32 (shl (2 ^ w - 1) s)) hr)
      (shl_fits s 32 w v hs hv)

-- A low part of a number has its low bits.
pub bit_at-mod : (w x k : ℕ) → k < w → bit_at (x % 2 ^ w) k ≡ bit_at x k
bit_at-mod w x k h =
    ap (λ (y : ℕ). bit_at y k) (sym (bit_and-mask w x))
    ∙ ground (arith, bit_at-bit_and x (2 ^ w - 1) k, bit_at_ones w k, bit_at-lt x k)

-- A test of one bit.
pub bit_and-shl_one : (x n : ℕ) → bit_and x (shl 1 n) ≡ shl (bit_at x n) n
bit_and-shl_one x n =
    let small : shl 1 n < 2 ^ suc n = omega (arith, pow-suc 2 n, one-le-pow n 2) in
    eq_of_bits (suc n) (bit_and x (shl 1 n)) (shl (bit_at x n) n)
      (omega (arith, bit_and-le x (shl 1 n)))
      (shl_fits n (suc n) 1 (bit_at x n) (omega arith) (omega (arith, bit_at-lt x n)))
      λ k h. ground (
        arith,
        bit_at-bit_and x (shl 1 n) k,
        bit_at-shl_one n k,
        bit_at-shl_field n 1 (bit_at x n) k (omega (arith, bit_at-lt x n)),
        bit_at-lt x n,
        bit_at-lt x k,
      )

-- Setting or clearing a bit by its value.
pub bit_at-bit_or-shl :
    (r n k : ℕ) → bit_at (bit_or r (shl 1 n)) k ≡ (if k == n then 1 else bit_at r k)
unfolding set_bit
bit_at-bit_or-shl r n k = bit_at-set_bit r n k

pub bit_at-bit_and_not :
    (r n k : ℕ)
    → n < 32
    → k < 32
    → bit_at (bit_and r (not32 (shl 1 n))) k ≡ (if k == n then 0 else bit_at r k)
unfolding clr_bit
bit_at-bit_and_not r n k hn hk = bit_at-clr_bit r n k hn hk

pub bit_and_not : (x : ℕ) → x < 2 ^ 32 → bit_and x (not32 x) ≡ 0
bit_and_not x h =
    eq_of_bits 32 (bit_and x (not32 x)) 0 (omega (arith, bit_and-le x (not32 x))) (omega arith)
      λ k l. ground (
        arith,
        bit_at-bit_and x (not32 x) k,
        bit_at-complement 32 x k h l,
        bit_at-lt x k,
        bit_at_zero k,
      )

pub shl_one-lt : (n : ℕ) → n < 32 → shl 1 n < 2 ^ 32
shl_one-lt n h = shl_fits n 32 1 1 (omega arith) (omega arith)

bit_at-div : (x n : ℕ) → bit_at x n ≡ x / 2 ^ n % 2
bit_at-div x zero = omega arith
bit_at-div x (suc n) =
    let whole : 2 * 2 ^ n ≡ 2 ^ suc n = omega (arith, pow-suc 2 n) in
    bit_at-div (x / 2) n
    ∙ ap (λ (y : ℕ). y % 2) (div-div-eq-div-mul x 2 (2 ^ n) ∙ ap (λ (d : ℕ). x / d) whole)

-- `(x >> n) & 1`
pub bit_at-shr : (x n : ℕ) → bit_and (shr x n) 1 ≡ bit_at x n
bit_at-shr x n = bit_and-mask 1 (shr x n) ∙ sym (bit_at-div x n)

-- A number moved down shows its higher bits.
pub bit_at-shr_up : (n x k j : ℕ) → j ≡ n + k → bit_at (shr x n) k ≡ bit_at x j
bit_at-shr_up zero x k j e =
    let whole : shr x zero ≡ x = omega arith in
    let same : k ≡ j = omega arith in ap₂ bit_at whole same
bit_at-shr_up (suc n) x k zero e = absurd (omega arith)
bit_at-shr_up (suc n) x k (suc j) e =
    let whole : 2 * 2 ^ n ≡ 2 ^ suc n = omega (arith, pow-suc 2 n) in
    ap (λ (y : ℕ). bit_at y k)
      (ap (λ (d : ℕ). x / d) (sym whole) ∙ sym (div-div-eq-div-mul x 2 (2 ^ n)))
    ∙ bit_at-shr_up n (x / 2) k j (omega arith)
