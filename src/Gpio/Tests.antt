-- ===== src/Gpio/Tests.antt =====
-- The ports on a concrete state.
use rflpc.Gpio.{Gpio}

abbrev board : Gpio
board = record {
  ports = λ k. record { fiodir = 0; fiomask = 0; output = 0xf0; external = 0 };
  pincon = record { pinsel = λ k. 0; pinmode = λ k. 0; pinmode_od = λ k. 0 };
}
