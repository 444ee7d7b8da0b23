-- ===== src/Tinylibc/Printf/Hexa.antt =====
-- What PUT_HEXA_VAL puts: the digits in base 16.
use native.Mathlib.Nat.{div-div-eq-div-mul, div-add-mod, pow-suc, one-le-pow}
use rflpc.Base.{
  ℕ, zero, suc, ◌+◌, ◌-◌, ◌*◌, ◌/◌, ◌%◌, ◌^◌, ◌<◌, ◌==◌, if◌then◌else◌, leb, ◌≡◌, ◌≢◌, refl, ap,
  sym, ◌∙◌, ◌⊎◌, inl, inr, List, [], ◌∷◌, Bool, true, false, length, Bool-cases, arith,
}
use rflpc.Base.Bits.{bit_and-mask}
use rflpc.Tinylibc.Printf.Numbers.{hexa_digit, nibble, skip_zeros, hexa_digits, hexa_val}

-- The digit that a character stands for, `letter` being the one for ten.
abbrev pub digit_value : ℕ → ℕ → ℕ
digit_value letter c = if leb c 57 then c - 48 else c - letter + 10

-- The number that a text in base 16 stands for, read from the left after `acc`.
abbrev pub hexa_value : ℕ → ℕ → List ℕ → ℕ
hexa_value letter acc [] = acc
hexa_value letter acc (c ∷ cs) = hexa_value letter (acc * 16 + digit_value letter c) cs

place_suc : (k : ℕ) → 2 ^ (4 * suc k) ≡ 2 ^ (4 * k) * 16
place_suc k =
    let e : 4 * suc k ≡ suc (suc (suc (suc (4 * k)))) = omega arith in
    rw e (
      omega (
        arith,
        pow-suc 2 (suc (suc (suc (4 * k)))),
        pow-suc 2 (suc (suc (4 * k))),
        pow-suc 2 (suc (4 * k)),
        pow-suc 2 (4 * k),
      ))

mod_split : (v p : ℕ) → 0 < p → v % (p * 16) ≡ v / p % 16 * p + v % p
mod_split v p pos =
    let a = v / (p * 16) in
    let q = v / p in
    let high : q / 16 ≡ a = div-div-eq-div-mul v p 16 in
    let parts : q ≡ 16 * a + q % 16 = omega arith in
    let whole : p * 16 * a + v % (p * 16) ≡ v = div-add-mod v (p * 16) in
    let low : p * q + v % p ≡ v = div-add-mod v p in omega (arith, ap (λ (t : ℕ). p * t) parts)

nibble_lem : (val k : ℕ) → nibble val k ≡ val / 2 ^ (4 * k) % 16
unfolding nibble
nibble_lem val k = bit_and-mask 4 (val / 2 ^ (4 * k))

digit_value-hexa_digit :
    (d letter : ℕ) → d < 16 → 57 < letter → digit_value letter (hexa_digit d letter) ≡ d
unfolding hexa_digit
digit_value-hexa_digit d letter h hl = ground arith

regroup : (acc q p r : ℕ) → (acc * 16 + q) * p + r ≡ acc * (p * 16) + (q * p + r)
regroup acc q p r = omega arith

module _ (val letter : ℕ) (hl : 57 < letter) where
  digits_value :
      (k acc : ℕ)
      → (hexa_value letter acc (hexa_digits val letter k)
          ≡ acc * 2 ^ (4 * suc k) + val % 2 ^ (4 * suc k))
        × (length (hexa_digits val letter k) ≡ suc k)
  unfolding hexa_digits
  digits_value zero acc =
      let d : digit_value letter (hexa_digit (nibble val 0) letter) ≡ val / 1 % 16 =
        digit_value-hexa_digit (nibble val 0) letter (omega (arith, nibble_lem val 0)) hl
        ∙ nibble_lem val 0 in
      let last : acc * 16 + val / 1 % 16 ≡ acc * 16 + val % 16 = omega arith in
      (ap (λ t. acc * 16 + t) d ∙ last, refl)
  digits_value (suc k) acc =
      let p = 2 ^ (4 * suc k) in
      let q = val / p % 16 in
      let d : digit_value letter (hexa_digit (nibble val (suc k)) letter) ≡ q =
        digit_value-hexa_digit (nibble val (suc k)) letter (omega (arith, nibble_lem val (suc k)))
          hl
        ∙ nibble_lem val (suc k) in
      let (rest, count) = digits_value k (acc * 16 + q) in
      let pos : 0 < p = one-le-pow (4 * suc k) 2 (omega arith) in
      (
        ap (λ t. hexa_value letter (acc * 16 + t) (hexa_digits val letter k)) d
            ∙ rest
            ∙ regroup acc q p (val % p)
            ∙ rw (place_suc (suc k), mod_split val p pos),
        ap suc count,
      )

-- No digit but zeros stands above the one at which the loop stops.
skip_zeros_value : (val k : ℕ) → val % 2 ^ (4 * suc (skip_zeros val k)) ≡ val % 2 ^ (4 * suc k)
unfolding skip_zeros
skip_zeros_value val zero = refl
skip_zeros_value val (suc k) = elim (Bool-cases (nibble val (suc k) == 0)) [
  | inr e ↦ rw e
  | inl e ↦
      let p = 2 ^ (4 * suc k) in
      let pos : 0 < p = one-le-pow (4 * suc k) 2 (omega arith) in
      let clear : val / p % 16 ≡ 0 = ground (arith, nibble_lem val (suc k)) in
      let same : val % p ≡ val % 2 ^ (4 * suc (suc k)) =
        rw (place_suc (suc k), mod_split val p pos, clear) (omega arith) in
      rw e (skip_zeros_value val k ∙ same)
]

skip_zeros_top : (val k : ℕ) → (nibble val (skip_zeros val k) ≢ 0) ⊎ (skip_zeros val k ≡ 0)
unfolding skip_zeros
skip_zeros_top val zero = inr refl
skip_zeros_top val (suc k) = elim (Bool-cases (nibble val (suc k) == 0)) [
  | inr e ↦ rw e (inl (ground arith))
  | inl e ↦ rw e (skip_zeros_top val k)
]

-- How many digits a field of `n` digits has: all of them if zeros are wanted, else no zero in front
-- but a single digit.
abbrev pub HasWidth : Bool → ℕ → ℕ → List ℕ → Type 0
HasWidth true val n cs = length cs ≡ n
HasWidth false val n cs = (length cs ≡ 1) ⊎ (val / 2 ^ (4 * (length cs - 1)) % 16 ≢ 0)

-- For a field of `4 * (k + 1)` bits PUT_HEXA_VAL puts digits in base 16 that stand for the value's
-- low `4 * (k + 1)` bits: all `k + 1` of them if zeros are wanted, and otherwise no zero in front
-- unless it is the only digit.
pub hexa_val_lem :
    (val letter k : ℕ) (print_zero : Bool)
    → 57 < letter
    → let cs = hexa_val val letter (4 * (k + 1)) print_zero in
      (hexa_value letter 0 cs ≡ val % 2 ^ (4 * (k + 1))) × HasWidth print_zero val (k + 1) cs
unfolding hexa_val
hexa_val_lem val letter k true hl =
    let top : 4 * (k + 1) / 4 - 1 ≡ k = omega arith in
    let next : k + 1 ≡ suc k = omega arith in
    let (value, count) = digits_value val letter hl k 0 in
    (
      rw (top, value) (omega (arith, ap (λ (t : ℕ). val % 2 ^ (4 * t)) (sym next))),
      rw top (count ∙ sym next),
    )
hexa_val_lem val letter k false hl =
    let top : 4 * (k + 1) / 4 - 1 ≡ k = omega arith in
    let next : suc k ≡ k + 1 = omega arith in
    let j = skip_zeros val k in
    let (value, count) = digits_value val letter hl j 0 in
    let place : suc j - 1 ≡ j = omega arith in
    (
      rw (top, value)
          (omega (arith, skip_zeros_value val k ∙ ap (λ (t : ℕ). val % 2 ^ (4 * t)) next)),
      rw (top, count, place) (ground (arith, skip_zeros_top val k, nibble_lem val j)),
    )
