-- ===== src/Tinylibc/Printf/Numbers.antt =====
-- The macros PUT_INT_NUMBER and PUT_HEXA_VAL.
use rflpc.Base.{
  ℕ, zero, suc, ◌+◌, ◌-◌, ◌*◌, ◌/◌, ◌%◌, ◌==◌, if◌then◌else◌, leb, bit_and, List, [], ◌∷◌, Option,
  some, none, Bool,
}
use rflpc.Base.Word.{u32, shr}

-- The count of characters that were put, and the characters.
pub record Out : Type 0 where
  pub count : ℕ
  pub chars : List ℕ

-- `PUT_INT_DIGIT`
abbrev pub int_digit : ℕ → ℕ
int_digit i = b'0' + i

-- `while (val / max_pow >= 10) max_pow *= 10;` on fuel
unfoldable pub grow_pow : ℕ → ℕ → ℕ → Option ℕ
grow_pow zero val max_pow = none
grow_pow (suc fuel) val max_pow =
    let further = grow_pow fuel val (u32 (max_pow * 10)) in
    if leb 10 (val / max_pow) then further else some max_pow

abbrev pub put_front : ℕ → Option (List ℕ) → Option (List ℕ)
put_front c none = none
put_front c (some cs) = some (c ∷ cs)

-- `for ( ; max_pow >= 1; max_pow /= 10) …` on fuel: the characters that it puts
unfoldable pub int_digits : ℕ → ℕ → ℕ → Option (List ℕ)
int_digits zero val max_pow = none
int_digits (suc fuel) val max_pow =
    let rest =
      put_front (int_digit (val / max_pow)) (int_digits fuel (val % max_pow) (max_pow / 10)) in
    if leb 1 max_pow then rest else some []

-- `PUT_INT_NUMBER`. Ten and eleven rounds are enough for 32 bits.
unfoldable pub int_number : ℕ → Option (List ℕ)
int_number i = elim (grow_pow 10 i 1) [ none ↦ none | some max_pow ↦ int_digits 11 i max_pow ]

-- `PUT_HEXA_DIGIT`
unfoldable pub hexa_digit : ℕ → ℕ → ℕ
hexa_digit d letter = if leb d 9 then b'0' + d else letter + (d - 0xA)

-- `(val >> b) & 0xF` for `b = 4 * k`
unfoldable pub nibble : ℕ → ℕ → ℕ
nibble val k = bit_and (shr val (4 * k)) 0xF

-- `while ((b > 0) && (((val) >> b) & 0xF) == 0) b -= 4;` for `b = 4 * k`: the last `k`
unfoldable pub skip_zeros : ℕ → ℕ → ℕ
skip_zeros val zero = zero
skip_zeros val (suc k) =
    let lower = skip_zeros val k in if nibble val (suc k) == 0 then lower else suc k

-- `for ( ; b >= 0 ; b -= 4) …` for `b = 4 * k`
unfoldable pub hexa_digits : ℕ → ℕ → ℕ → List ℕ
hexa_digits val letter zero = hexa_digit (nibble val zero) letter ∷ []
hexa_digits val letter (suc k) = hexa_digit (nibble val (suc k)) letter ∷ hexa_digits val letter k

-- `PUT_HEXA_VAL`, for `bits` a multiple of 4
unfoldable pub hexa_val : ℕ → ℕ → ℕ → Bool → List ℕ
hexa_val val letter bits print_zero =
    let top = bits / 4 - 1 in
    hexa_digits val letter (if print_zero then top else skip_zeros val top)
