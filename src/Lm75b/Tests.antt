-- ===== src/Lm75b/Tests.antt =====
-- Two degrees below zero, and the first bus.
use rflpc.Base.{◌≡◌, [], ◌∷◌, some, arith}
use rflpc.Base.Bits.{bit_at}
use rflpc.System.{System}
use rflpc.I2c.{master}
use rflpc.I2c.Read.{Driver}
use rflpc.I2c.Init.{i2c0, PortRegs, i2c_init, sda_pin, scl_pin}
use rflpc.I2c.Init.OpenDrain.{i2c_init-Drains}
use rflpc.Lm75b.{get_temp}
use rflpc.Lm75b.Temperature.{get_temp-Degrees}

abbrev idle_driver : Driver
idle_driver = record { mode = master; slave_data = 0; slave_size = 0 }

get_temp-Degrees_example :
    get_temp idle_driver 500
      (λ a. 9)
      []
      ((0xf8, 0) ∷ (0x08, 0) ∷ (0x40, 0) ∷ (0x50, 254) ∷ (0x58, 0) ∷ [])
    ≡ some 8190
get_temp-Degrees_example =
    get_temp-Degrees idle_driver 500 (λ a. 9) [] 0 0 0 254 0 (omega arith) (omega arith)

abbrev powered_off : System
powered_off = record {
  pconp = 0;
  pclksel0 = 0;
  pclksel1 = 0;
  pincon = record { pinsel = λ k. 0; pinmode = λ k. 0; pinmode_od = λ k. 0 };
}

abbrev port_off : PortRegs
port_off = record { con = 0; scll = 0; sclh = 0; adr0 = 0; mask0 = 0 }

i2c_init-Drains_example :
    bit_at
      ((i2c_init 96000000 i2c0 master 0 (idle_driver, powered_off, port_off)).2.pincon.pinmode_od 0)
      27
    ≡ 0
unfolding sda_pin scl_pin
i2c_init-Drains_example = i2c_init-Drains i2c0 master 0 27 idle_driver powered_off port_off
