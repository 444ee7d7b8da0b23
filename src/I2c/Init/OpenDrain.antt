-- ===== src/I2c/Init/OpenDrain.antt =====
-- The outputs of a port's two pins.
use rflpc.Base.{ℕ, ◌==◌, if◌then◌else◌, ◌%◌, ◌||◌, ◌≡◌, arith}
use rflpc.Base.Bits.{bit_at}
use rflpc.Base.Word.{set_bit, bit_at-set_bit}
use rflpc.System.{System, set_pin_function, power}
use rflpc.Pin.{pin_set, get_port, get_pin, pin_in_register}
use rflpc.I2c.{Mode}
use rflpc.I2c.Read.{Driver}
use rflpc.I2c.Init.{
  I2cPort, i2c0, i2c1, i2c2, PortRegs, i2c_init, clocked, sda_pin, scl_pin, pin_function,
}

both_bits :
    (r a b k : ℕ)
    → bit_at (set_bit (set_bit r a) b) k ≡ (if k == a || k == b then 1 else bit_at r k)
both_bits r a b k = ground (arith, bit_at-set_bit (set_bit r a) b k, bit_at-set_bit r a k)

-- At 96 MHz rflpc_i2c_init makes two outputs of port 0 open-drain, and leaves the others as they were: those of the
-- pins whose numbers are the ones of the bus modulo 16. So the pins 27 and 28 of the first bus are not among them.
pub i2c_init-Drains :
    (port : I2cPort) (mode : Mode) (addr k : ℕ) (d : Driver) (s : System) (r : PortRegs)
    → bit_at ((i2c_init 96000000 port mode addr (d, s, r)).2.pincon.pinmode_od 0) k ≡ (
        if k == sda_pin port % 16 || k == scl_pin port % 16
        then 1
        else bit_at (s.pincon.pinmode_od 0) k)
unfolding i2c_init set_pin_function pin_set get_port get_pin pin_in_register clocked sda_pin scl_pin
    pin_function power
i2c_init-Drains i2c0 mode addr k d s r = both_bits (s.pincon.pinmode_od 0) 11 12 k
i2c_init-Drains i2c1 mode addr k d s r = both_bits (s.pincon.pinmode_od 0) 0 1 k
i2c_init-Drains i2c2 mode addr k d s r = both_bits (s.pincon.pinmode_od 0) 10 11 k
