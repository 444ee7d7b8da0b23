-- ===== src/Leds/Digits.antt =====
-- What the LEDs show.
use rflpc.Base.{
  ℕ, ◌<◌, ◌^◌, ◌==◌, ◌||◌, if◌then◌else◌, true, bit_and, bit_or, ◌≡◌, refl, ◌∙◌, ap, Bool-cases,
  inl, inr, arith,
}
use rflpc.Base.Bits.{
  bit_at, bit_at-lt, bit_at-bit_and, bit_at-bit_or, bit_at-complement, bit_at_zero,
}
use rflpc.Base.Word.{shl, not32, bit_at-set_bit, bit_and-shl_one, bit_at-shl_one, bit_at-bit_or-shl}
use native.Mathlib.Nat.{one-le-pow}
use rflpc.Pin.{get_port, get_pin}
use rflpc.Gpio.Pins.{not_not, get_pin-lt, clr_bits}
use rflpc.Gpio.{Gpio, set_pin_mode_output, set_val, write_fiopin, use_pin}
use rflpc.Leds.{
  led_1_pin, led_2_pin, led_3_pin, led_4_pin, led_of, led_init, led_val, all_leds, leds_of_digits,
  led_binary_value,
}

all_leds_bits :
    (k : ℕ) → bit_at all_leds k ≡ (if k == 18 || k == 20 || k == 21 || k == 23 then 1 else 0)
unfolding all_leds led_of get_pin
all_leds_bits k = ground (
  arith,
  bit_at-bit_or-shl (bit_or (bit_or (shl 1 18) (shl 1 20)) (shl 1 21)) 23 k,
  bit_at-bit_or-shl (bit_or (shl 1 18) (shl 1 20)) 21 k,
  bit_at-bit_or-shl (shl 1 18) 20 k,
  bit_at-shl_one 18 k,
)

digit_test : (v n : ℕ) → (bit_and v (shl 1 n) == 0) ≡ (bit_at v n == 0)
digit_test v n = ground (arith, bit_and-shl_one v n, bit_at-lt v n, one-le-pow n 2)

-- One digit puts its LED on.
step_bits :
    (v leds n pin k : ℕ)
    → bit_at leds pin ≡ 0
    → bit_at (if bit_and v (shl 1 n) == 0 then leds else bit_or leds (shl 1 pin)) k
      ≡ (if k == pin then bit_at v n else bit_at leds k)
step_bits v leds n pin k low = rw (digit_test v n) (elim (Bool-cases (bit_at v n == 0)) [
  | inl e ↦ rw e (ground (arith, e, low, ap (bit_at leds) {x = k} {y = pin}))
  | inr e ↦ rw e (ground (arith, e, bit_at-lt v n, bit_at-bit_or-shl leds pin k))
])

leds_bits :
    (v k : ℕ)
    → bit_at (leds_of_digits v) k ≡ (
        if k == 18
        then bit_at v 3
        else if k == 20
        then bit_at v 2
        else if k == 21
        then bit_at v 1
        else if k == 23
        then bit_at v 0
        else 0)
unfolding leds_of_digits led_of get_pin
leds_bits v k =
    let leds₁ = if bit_and v (shl 1 0) == 0 then 0 else bit_or 0 (shl 1 23) in
    let leds₂ = if bit_and v (shl 1 1) == 0 then leds₁ else bit_or leds₁ (shl 1 21) in
    let leds₃ = if bit_and v (shl 1 2) == 0 then leds₂ else bit_or leds₂ (shl 1 20) in
    let first = λ (j : ℕ). step_bits v 0 0 23 j (bit_at_zero 23) in
    let second = λ (j : ℕ). step_bits v leds₁ 1 21 j (first 21 ∙ bit_at_zero 21) in
    let third = λ (j : ℕ). step_bits v leds₂ 2 20 j (second 20 ∙ first 20 ∙ bit_at_zero 20) in
    step_bits v leds₃ 3 18 k (third 18 ∙ second 18 ∙ first 18 ∙ bit_at_zero 18)
    ∙ ground (arith, third k, second k, first k, bit_at_zero k)

all_leds-lt : all_leds < 2 ^ 32
unfolding all_leds led_of get_pin
all_leds-lt = omega arith

val_dir :
    (l : ℕ) (g : Gpio) (k : ℕ)
    → bit_at ((led_val l g).ports 1).fiodir k ≡ bit_at (g.ports 1).fiodir k
unfolding led_val set_val write_fiopin get_port
val_dir l g k = refl

-- The LEDs take the value, and the other outputs of the port stay.
val_bits :
    (l k : ℕ) (g : Gpio)
    → k < 32
    → bit_at ((led_val l g).ports 1).output k
      ≡ (if bit_at all_leds k == 0 then bit_at (g.ports 1).output k else bit_at l k)
unfolding led_val set_val write_fiopin get_port
val_bits l k g h =
    let out = (g.ports 1).output in
    let small : all_leds < 2 ^ 32 = all_leds-lt in
    rw (not_not all_leds small) (
      ground (
        arith,
        bit_at-bit_or (bit_and out (not32 all_leds)) (bit_and l all_leds) k,
        bit_at-bit_and out (not32 all_leds) k,
        bit_at-bit_and l all_leds k,
        bit_at-complement 32 all_leds k small h,
        bit_at-lt all_leds k,
        bit_at-lt out k,
        bit_at-lt l k,
      ))

output_bits :
    (pin k : ℕ) (g : Gpio)
    → get_port pin ≡ 1
    → k < 32
    → (bit_at ((set_pin_mode_output pin 0 g).ports 1).output k
        ≡ (if k == get_pin pin then 0 else bit_at (g.ports 1).output k))
      × (bit_at ((set_pin_mode_output pin 0 g).ports 1).fiodir k
          ≡ (if k == get_pin pin then 1 else bit_at (g.ports 1).fiodir k))
unfolding set_pin_mode_output use_pin
output_bits pin k g port h =
    let here : (1 == get_port pin) ≡ true = ground (arith, port) in
    rw here (
      clr_bits (g.ports 1).output (get_pin pin) k (get_pin-lt pin) h,
      bit_at-set_bit (g.ports 1).fiodir (get_pin pin) k,
    )

init_bits :
    (k : ℕ) (g : Gpio)
    → k < 32
    → (bit_at ((led_init g).ports 1).output k
        ≡ (if bit_at all_leds k == 0 then bit_at (g.ports 1).output k else 0))
      × (bit_at ((led_init g).ports 1).fiodir k
          ≡ (if bit_at all_leds k == 0 then bit_at (g.ports 1).fiodir k else 1))
unfolding led_init get_port get_pin
init_bits k g h =
    let g₁ = set_pin_mode_output led_1_pin 0 g in
    let g₂ = set_pin_mode_output led_2_pin 0 g₁ in
    let g₃ = set_pin_mode_output led_3_pin 0 g₂ in
    let (o₁, d₁) = output_bits led_1_pin k g refl h in
    let (o₂, d₂) = output_bits led_2_pin k g₁ refl h in
    let (o₃, d₃) = output_bits led_3_pin k g₂ refl h in
    let (o₄, d₄) = output_bits led_4_pin k g₃ refl h in
    (
      ground (arith, all_leds_bits k, o₁, o₂, o₃, o₄),
      ground (arith, all_leds_bits k, d₁, d₂, d₃, d₄),
    )

-- After rflpc_led_init, rflpc_led_binary_value shows the four low bits of its number: LED 1, the pin 18 of port 1, is
-- bit 3, LED 2 (20) is bit 2, LED 3 (21) is bit 1 and LED 4 (23) is bit 0. The four pins are outputs; the levels and
-- the directions of the port's other pins are as they were before both calls.
pub led_binary_value-Shows :
    (v k : ℕ) (g : Gpio)
    → k < 32
    → let p = (led_binary_value v (led_init g)).ports 1 in
      (bit_at p.output k ≡ (
        if k == 18
        then bit_at v 3
        else if k == 20
        then bit_at v 2
        else if k == 21
        then bit_at v 1
        else if k == 23
        then bit_at v 0
        else bit_at (g.ports 1).output k))
      × (bit_at p.fiodir k
          ≡ (if k == 18 || k == 20 || k == 21 || k == 23 then 1 else bit_at (g.ports 1).fiodir k))
unfolding led_binary_value
led_binary_value-Shows v k g h =
    let (low, out) = init_bits k g h in
    (
      val_bits (leds_of_digits v) k (led_init g) h
          ∙ ground (arith, all_leds_bits k, leds_bits v k, low),
      val_dir (leds_of_digits v) (led_init g) k ∙ ground (arith, all_leds_bits k, out),
    )
