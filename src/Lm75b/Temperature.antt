-- ===== src/Lm75b/Temperature.antt =====
-- The temperature that the sample reads.
use rflpc.Base.{
  ℕ, ◌+◌, ◌-◌, ◌*◌, ◌/◌, ◌^◌, ◌<◌, if◌then◌else◌, ltb, List, [], ◌∷◌, none, some, bit_or, ◌≡◌, ap,
  ap₂, ◌∙◌, arith,
}
use rflpc.Base.Bits.{bit_or-add, bit_or-lt, bit_at-bit_or, eq_of_bits}
use rflpc.Base.Word.{shl, shr, u16, bit_and-shl_one}
use rflpc.Base.Memory.{Memory, store_all, store_all_inside}
use rflpc.I2c.Read
use rflpc.I2c.Read.{Driver, Outcome}
use rflpc.I2c.Read.Master.{result, read_receives}
use rflpc.Lm75b.{get_temp, temp_of, lm75b_i2c_port, lm75b_i2c_addr}

bit_or_comm : (w a b : ℕ) → a < 2 ^ w → b < 2 ^ w → bit_or a b ≡ bit_or b a
bit_or_comm w a b ha hb =
    eq_of_bits w (bit_or a b) (bit_or b a) (bit_or-lt w a b ha hb) (bit_or-lt w b a hb ha)
      (λ k h. ground (arith, bit_at-bit_or a b k, bit_at-bit_or b a k))

sign_extended : (t : ℕ) → t < 2 ^ 11 → bit_or t 0xf800 ≡ 0xf800 + t
sign_extended t h =
    bit_or_comm 16 t 0xf800 (omega arith) (omega arith) ∙ bit_or-add 11 31 t (omega arith)

temp_of_lem :
    (r₀ r₁ : ℕ) → r₀ < 256 → r₁ < 256 → temp_of r₀ r₁ ≡ (if ltb r₀ 128 then r₀ else 7936 + r₀)
unfolding temp_of
temp_of_lem r₀ r₁ h₀ h₁ =
    let joined : u16 (bit_or (shl r₀ 3) (shr r₁ 5)) ≡ r₀ * 8 + r₁ / 32 =
      omega (arith, bit_or-add 3 r₀ (r₁ / 32) (omega arith)) in
    rw joined (
      ground (
        arith,
        bit_and-shl_one (r₀ * 8 + r₁ / 32) 10,
        sign_extended (r₀ * 8 + r₁ / 32) (omega arith),
      ))

result_value :
    (o : Outcome) (stack w : ℕ) (m : Memory)
    → result o ≡ some (w, m)
    → (elim o [
      | Read.done code m' log ↦ some (temp_of (m' stack) (m' (stack + 1)))
      | Read.waiting x log ↦ none
    ])
      ≡ some (temp_of (m stack) (m (stack + 1)))
result_value (Read.done code m' log) stack w m e = cc
result_value (Read.waiting x log) stack w m e = cc

-- When the sensor answers the read on the bus with two bytes, libboard_lm75b_get_temp returns the first one, the
-- whole degrees, if the temperature is not negative; a negative temperature, whose first byte is 256 more than the
-- degrees, is returned 8192 too high, since the last shift does not keep the sign.
pub get_temp-Degrees :
    (d : Driver) (stack : ℕ) (mem : Memory) (port2 : List ℕ) (i j k r₀ r₁ : ℕ)
    → r₀ < 256
    → r₁ < 256
    → get_temp d stack mem port2 ((0xf8, i) ∷ (0x08, j) ∷ (0x40, k) ∷ (0x50, r₀) ∷ (0x58, r₁) ∷ [])
      ≡ some (if ltb r₀ 128 then r₀ else 8192 + r₀ - 256)
unfolding get_temp
get_temp-Degrees d stack mem port2 i j k r₀ r₁ h₀ h₁ =
    let zeros = store_all mem stack (0 ∷ 0 ∷ []) in
    let here : stack ≡ stack + 0 = omega arith in
    let received =
      read_receives d zeros lm75b_i2c_port lm75b_i2c_addr stack 1 port2 i j k (r₀ ∷ []) r₁ (h₀, tt)
        h₁ (omega arith) in
    result_value _ stack 2 _ received
    ∙ ap some (
        ap₂ temp_of
          (ap (store_all zeros stack (r₀ ∷ r₁ ∷ [])) here
            ∙ store_all_inside zeros stack (r₀ ∷ r₁ ∷ []) 0 (omega arith))
          (store_all_inside zeros stack (r₀ ∷ r₁ ∷ []) 1 (omega arith))
        ∙ temp_of_lem r₀ r₁ h₀ h₁
        ∙ ground arith)
