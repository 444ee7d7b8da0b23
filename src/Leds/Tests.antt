-- ===== src/Leds/Tests.antt =====
-- The number 5 puts the LEDs 2 and 4 on.
use rflpc.Base.{◌≡◌, refl, arith}
use rflpc.Base.Bits.{bit_at}
use rflpc.Gpio.{Gpio}
use rflpc.Leds.{led_init, led_binary_value}
use rflpc.Leds.Digits.{led_binary_value-Shows}

abbrev all_high : Gpio
all_high = record {
  ports = λ k. record { fiodir = 0; fiomask = 0; output = 0xffffffff; external = 0 };
  pincon = record { pinsel = λ i. 0; pinmode = λ i. 0; pinmode_od = λ i. 0 };
}

five_hides : bit_at ((led_binary_value 5 (led_init all_high)).ports 1).output 18 ≡ 0
unfolding led_binary_value led_init
five_hides = refl

led_binary_value-Shows_example :
    (bit_at ((led_binary_value 5 (led_init all_high)).ports 1).output 20 ≡ 1)
    × (bit_at ((led_binary_value 5 (led_init all_high)).ports 1).fiodir 20 ≡ 1)
led_binary_value-Shows_example = led_binary_value-Shows 5 20 all_high (omega arith)
