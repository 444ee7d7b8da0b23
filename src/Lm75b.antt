-- ===== src/Lm75b.antt =====
-- samples/i2c-test-mbed-board/lm75b.c: the temperature sensor on the I2C bus. `r` and `temp_register_pointer` are
-- variables on the stack, at the address `stack`.
pub mod Temperature
mod Tests
use rflpc.Base.{
  ℕ, ◌+◌, ◌*◌, ◌/◌, ◌%◌, ◌^◌, ◌==◌, if◌then◌else◌, List, [], ◌∷◌, Option, none, some, ◌>>=◌,
  bit_and, bit_or,
}
use rflpc.Base.Integers.{ℤ}
use rflpc.Base.Word.{shl, shr, u16}
use rflpc.Base.Memory.{Memory, store, store_all}
use rflpc.System.{System}
use rflpc.I2c.{master}
use rflpc.I2c.Write
use rflpc.I2c.Read
use rflpc.I2c.Read.{Driver}
use rflpc.I2c.Init.{i2c2, PortRegs, i2c_init}

-- `LM75B_I2C_PORT` and `LM75B_I2C_ADDR`
abbrev pub lm75b_i2c_port : ℕ
lm75b_i2c_port = 2

abbrev pub lm75b_i2c_addr : ℕ
lm75b_i2c_addr = 0x90

-- `libboard_lm75b_init`: the set-up of the bus, and the write of the pointer byte on what I2STAT shows.
unfoldable pub lm75b_init :
    ℕ
    → ℕ
    → Memory
    → List ℕ
    → Driver × System × PortRegs
    → (ℤ × Driver × System × PortRegs) × Write.Outcome
unfolding i2c_init Write.write
lm75b_init system_clock stack mem states d = (
  i2c_init system_clock i2c2 master 0 d,
  Write.write (store mem stack 0) lm75b_i2c_port lm75b_i2c_addr stack 1 0 states,
)

-- The end of `libboard_lm75b_get_temp`: the temperature of the two bytes of the register.
unfoldable pub temp_of : ℕ → ℕ → ℕ
temp_of r₀ r₁ =
    let temp = u16 (bit_or (shl r₀ 3) (shr r₁ 5)) in
    let signed = if bit_and temp 0x400 == 0 then temp else u16 (bit_or temp 0xf800) in shr signed 3

abbrev temp_in : ℕ → Memory → ℕ
temp_in stack m = temp_of (m stack) (m (stack + 1))

-- `libboard_lm75b_get_temp`, on what I2STAT and I2DAT show. There is no result while the call waits.
unfoldable pub get_temp : Driver → ℕ → Memory → List ℕ → List (ℕ × ℕ) → Option ℕ
unfolding Read.read temp_of
get_temp d stack mem port2 states =
    elim (Read.read d (store_all mem stack (0 ∷ 0 ∷ [])) lm75b_i2c_port lm75b_i2c_addr stack 2 1
      port2 states) [
        | Read.done code m log ↦ some (temp_of (m stack) (m (stack + 1)))
        | Read.waiting x log ↦ none
      ]
