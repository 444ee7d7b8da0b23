-- ===== src/Leds.antt =====
-- rflpc17xx/drivers/leds.h with the pins of rflpc17xx/config/config-mbed.h: the four LEDs of the board.
pub mod Digits
mod Tests
use rflpc.Base.{ℕ, ◌-◌, ◌*◌, ◌^◌, ◌==◌, if◌then◌else◌, bit_and, bit_or}
use rflpc.Base.Word.{shl, not32}
use rflpc.Pin.{get_port, get_pin}
use rflpc.Gpio.{Gpio, set_pin_mode_output, set_pins_from_mask, clr_pins_from_mask, set_val}

-- `RFLPC_LED_1_PIN` to `RFLPC_LED_4_PIN`
abbrev pub led_1_pin : ℕ
led_1_pin = 50

abbrev pub led_2_pin : ℕ
led_2_pin = 52

abbrev pub led_3_pin : ℕ
led_3_pin = 53

abbrev pub led_4_pin : ℕ
led_4_pin = 55

-- `RFLPC_LED_1` to `RFLPC_LED_4`
unfoldable pub led_of : ℕ → ℕ
unfolding get_pin
led_of pin = shl 1 (get_pin pin)

-- `rflpc_led_init`
unfoldable pub led_init : Gpio → Gpio
unfolding set_pin_mode_output
led_init g = set_pin_mode_output led_4_pin 0 (
    set_pin_mode_output led_3_pin 0
      (set_pin_mode_output led_2_pin 0 (set_pin_mode_output led_1_pin 0 g)))

-- `rflpc_led_set`, and `rflpc_led_clr`, where `shown` is what a read of FIOCLR gives.
unfoldable pub led_set : ℕ → Gpio → Gpio
unfolding set_pins_from_mask get_port
led_set l g = set_pins_from_mask (get_port led_1_pin) l g

unfoldable pub led_clr : ℕ → ℕ → Gpio → Gpio
unfolding clr_pins_from_mask get_port
led_clr shown l g = clr_pins_from_mask shown (get_port led_1_pin) l g

-- `rflpc_led_val`
unfoldable pub all_leds : ℕ
unfolding led_of
all_leds =
    bit_or (bit_or (bit_or (led_of led_1_pin) (led_of led_2_pin)) (led_of led_3_pin))
      (led_of led_4_pin)

unfoldable pub led_val : ℕ → Gpio → Gpio
unfolding set_val get_port all_leds
led_val l g = set_val (get_port led_1_pin) l (not32 all_leds) g

-- `rflpc_led_binary_value`
unfoldable pub leds_of_digits : ℕ → ℕ
unfolding led_of
leds_of_digits v =
    let leds₁ = if bit_and v 1 == 0 then 0 else bit_or 0 (led_of led_4_pin) in
    let leds₂ = if bit_and v 2 == 0 then leds₁ else bit_or leds₁ (led_of led_3_pin) in
    let leds₃ = if bit_and v 4 == 0 then leds₂ else bit_or leds₂ (led_of led_2_pin) in
    if bit_and v 8 == 0 then leds₃ else bit_or leds₃ (led_of led_1_pin)

unfoldable pub led_binary_value : ℕ → Gpio → Gpio
unfolding led_val leds_of_digits
led_binary_value v g = led_val (leds_of_digits v) g
