-- ===== src/I2c/Init.antt =====
-- rflpc_i2c_init of rflpc17xx/drivers/i2c.c: power, clock and pins of a port, and its first registers.
pub mod OpenDrain
use rflpc.Base.{ℕ, ◌+◌, ◌-◌, ◌*◌, ◌^◌, ◌==◌, if◌then◌else◌, not, bit_and, bit_or}
use rflpc.Base.Integers.{ℤ, pos, negsuc}
use rflpc.Base.Word.{not32, put_field}
use rflpc.System.{System, power, set_pin_function}
use rflpc.I2c.{Mode, master, slave}
use rflpc.I2c.Read.{Driver}

pub data I2cPort : Type 0 where
  i2c0 i2c1 i2c2 : I2cPort

pub record PortRegs : Type 0 where
  pub con : ℕ
  pub scll : ℕ
  pub sclh : ℕ
  pub adr0 : ℕ
  pub mask0 : ℕ

-- `_config`: the pins of a port.
unfoldable pub sda_pin : I2cPort → ℕ
sda_pin i2c0 = 27
sda_pin i2c1 = 0
sda_pin i2c2 = 10

unfoldable pub scl_pin : I2cPort → ℕ
scl_pin i2c0 = 28
scl_pin i2c1 = 1
scl_pin i2c2 = 11

unfoldable pub pin_function : I2cPort → ℕ
pin_function i2c0 = 1
pin_function i2c1 = 3
pin_function i2c2 = 2

-- Power, and 12 MHz for the peripheral: the bits of the table are cleared, then set.
unfoldable pub clocked : I2cPort → System → System
unfolding power
clocked i2c0 s = record (power 7 s) { pclksel0 = put_field s.pclksel0 14 2 3 }
clocked i2c1 s = record (power 19 s) { pclksel1 = put_field s.pclksel1 6 2 3 }
clocked i2c2 s = record (power 26 s) { pclksel1 = put_field s.pclksel1 20 2 3 }

-- I2CONCLR clears the bits that are written as one, and I2CONSET sets them.
unfoldable pub write_conclr_word : ℕ → PortRegs → PortRegs
write_conclr_word v r = record r { con = bit_and r.con (not32 v) }

unfoldable pub write_conset_word : ℕ → PortRegs → PortRegs
write_conset_word v r = record r { con = bit_or r.con v }

unfoldable pub i2c_started : Mode → ℕ → PortRegs → PortRegs
unfolding write_conclr_word write_conset_word
i2c_started master addr r =
    write_conset_word 0x40 (write_conclr_word 0xffffffff (record r { scll = 60; sclh = 60 }))
i2c_started slave addr r =
    record (write_conset_word 0x44
      (write_conclr_word 0xffffffff (record r { scll = 60; sclh = 60 }))) { adr0 = addr; mask0 = 0 }

-- `rflpc_i2c_init`, with what rflpc_clock_get_system_clock returns. Pin mode 2 is without resistors.
unfoldable pub i2c_init :
    ℕ → I2cPort → Mode → ℕ → Driver × System × PortRegs → ℤ × Driver × System × PortRegs
unfolding clocked i2c_started set_pin_function sda_pin scl_pin pin_function
i2c_init system_clock port mode addr (d, s, r) =
    if not (system_clock == 96000000) then (negsuc 0, d, s, r) else (
      pos 0,
      record d { mode = mode },
      set_pin_function (scl_pin port) (pin_function port) 2 1
          (set_pin_function (sda_pin port) (pin_function port) 2 1 (clocked port s)),
      i2c_started mode addr r,
    )
