-- ===== src/Gpio/Pins.antt =====
-- A pin is driven and read without the others.
use rflpc.Base.{
  ℕ, ◌^◌, ◌<◌, ◌==◌, if◌then◌else◌, true, bit_and, bit_or, ◌≡◌, refl, ◌∙◌, Bool-cases, inl, inr,
  arith,
}
use rflpc.Base.Bits.{
  bit_at, bit_at-lt, bit_at-bit_and, bit_at-bit_or, bit_at-complement, bit_and-le, bit_and-mask,
}
use rflpc.Base.Word.{
  shl, shr, not32, set_bit, bit_at_ones, bit_at-set_bit, bit_at-shl_one, bit_at-shr, set_bit-lt,
  shl_one-lt,
}
use rflpc.Pin.{get_port, get_pin}
use rflpc.Gpio.{
  Gpio, set_pin_val, set_pin, clr_pin, write_fioset, write_fioclr, set_pin_mode_output, use_pin,
  read_fiopin, gpio_get_pin,
}

pub get_pin-lt : (pin : ℕ) → get_pin pin < 32
unfolding get_pin
get_pin-lt pin = omega (arith, bit_and-mask 5 pin)

pub not_not : (x : ℕ) → x < 2 ^ 32 → not32 (not32 x) ≡ x
not_not x h = omega arith

set_bits :
    (out n k : ℕ)
    → n < 32
    → k < 32
    → bit_at (bit_or out (bit_and 0xffffffff (not32 (not32 (shl 1 n))))) k
      ≡ (if k == n then 1 else bit_at out k)
set_bits out n k hn hk = rw (not_not (shl 1 n) (shl_one-lt n hn)) (
    ground (
      arith,
      bit_at-bit_or out (bit_and 0xffffffff (shl 1 n)) k,
      bit_at-bit_and 0xffffffff (shl 1 n) k,
      bit_at_ones 32 k,
      bit_at-shl_one n k,
      bit_at-lt out k,
    ))

pub clr_bits :
    (out n k : ℕ)
    → n < 32
    → k < 32
    → bit_at (bit_and out (not32 (bit_and 0xffffffff (not32 (not32 (shl 1 n)))))) k
      ≡ (if k == n then 0 else bit_at out k)
clr_bits out n k hn hk =
    let s = bit_and 0xffffffff (shl 1 n) in
    let small : s < 2 ^ 32 = omega (arith, bit_and-le 0xffffffff (shl 1 n), shl_one-lt n hn) in
    rw (not_not (shl 1 n) (shl_one-lt n hn)) (
      ground (
        arith,
        bit_at-bit_and out (not32 s) k,
        bit_at-complement 32 s k small hk,
        bit_at-bit_and 0xffffffff (shl 1 n) k,
        bit_at_ones 32 k,
        bit_at-shl_one n k,
        bit_at-lt out k,
      ))

-- rflpc_gpio_set_pin_val gives a pin's output the value, 0 or not, and leaves every other output as it was, those of
-- the pin's port and those of the other ports.
pub set_pin_val_bits :
    (pin val port k : ℕ) (g : Gpio)
    → k < 32
    → bit_at ((set_pin_val pin val g).ports port).output k ≡ (
        if port == get_port pin
        then (if k == get_pin pin
            then (if val == 0 then 0 else 1)
            else bit_at (g.ports port).output k)
        else bit_at (g.ports port).output k)
unfolding set_pin_val set_pin clr_pin write_fioset write_fioclr
set_pin_val_bits pin val port k g h =
    let n = get_pin pin in
    let out = (g.ports port).output in
    elim (Bool-cases (port == get_port pin)) [
      | inl e ↦ elim (Bool-cases (val == 0)) [
        | inl z ↦ rw (z, e) (clr_bits out n k (get_pin-lt pin) h)
        | inr z ↦ rw (z, e) (set_bits out n k (get_pin-lt pin) h)
      ]
      | inr e ↦ elim (Bool-cases (val == 0)) [ inl z ↦ rw (z, e) refl | inr z ↦ rw (z, e) refl ]
    ]

read_bits :
    (out dir ext n b : ℕ)
    → n < 32
    → dir < 2 ^ 32
    → bit_at out n ≡ b
    → bit_and
        (shr
          (bit_and
            (bit_or (bit_and out (set_bit dir n)) (bit_and ext (not32 (set_bit dir n))))
            (not32 (not32 (shl 1 n))))
          n)
        1
      ≡ b
read_bits out dir ext n b hn hd e =
    let pins = bit_or (bit_and out (set_bit dir n)) (bit_and ext (not32 (set_bit dir n))) in
    rw (not_not (shl 1 n) (shl_one-lt n hn)) (
      bit_at-shr (bit_and pins (shl 1 n)) n
      ∙ ground (
        arith,
        bit_at-bit_and pins (shl 1 n) n,
        bit_at-shl_one n n,
        bit_at-bit_or (bit_and out (set_bit dir n)) (bit_and ext (not32 (set_bit dir n))) n,
        bit_at-bit_and out (set_bit dir n) n,
        bit_at-bit_and ext (not32 (set_bit dir n)) n,
        bit_at-complement 32 (set_bit dir n) n (set_bit-lt dir n hd hn) hn,
        bit_at-set_bit dir n n,
        bit_at-lt out n,
      ))

dir_kept :
    (pin val port : ℕ) (g : Gpio)
    → ((set_pin_val pin val (use_pin pin 0 g)).ports port).fiodir ≡ (g.ports port).fiodir
unfolding set_pin_val set_pin clr_pin write_fioset write_fioclr use_pin
dir_kept pin val port g = elim (Bool-cases (port == get_port pin)) [
  | inl e ↦ elim (Bool-cases (val == 0)) [ inl z ↦ rw (z, e) refl | inr z ↦ rw (z, e) refl ]
  | inr e ↦ elim (Bool-cases (val == 0)) [ inl z ↦ rw (z, e) refl | inr z ↦ rw (z, e) refl ]
]

-- A pin that rflpc_gpio_set_pin_mode_output has made an output is read as the value it was given.
pub get_pin-output :
    (pin val : ℕ) (g : Gpio)
    → (g.ports (get_port pin)).fiodir < 2 ^ 32
    → (gpio_get_pin pin (set_pin_mode_output pin val g)).0 ≡ (if val == 0 then 0 else 1)
unfolding gpio_get_pin set_pin_mode_output read_fiopin
get_pin-output pin val g dir =
    let n = get_pin pin in
    let port = get_port pin in
    let self : (port == port) ≡ true = ground arith in
    let here : (n == n) ≡ true = ground arith in
    let q = (set_pin_val pin val (use_pin pin 0 g)).ports port in
    let driven : bit_at q.output n ≡ (if val == 0 then 0 else 1) =
      set_pin_val_bits pin val port n (use_pin pin 0 g) (get_pin-lt pin) ∙ rw self (rw here refl) in
    rw self (
      read_bits q.output q.fiodir q.external n _ (get_pin-lt pin) (rw (dir_kept pin val port g) dir)
        driven)
