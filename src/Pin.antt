-- ===== src/Pin.antt =====
-- rflpc17xx/pinconf.c: the function, the mode and the output stage of a pin. A pin is written `port * 32 + pin`.
pub mod Fields
mod Tests
use rflpc.Base.{ℕ, ◌+◌, ◌-◌, ◌*◌, ◌/◌, ◌%◌, ◌^◌, ◌==◌, if◌then◌else◌, leb, bit_and}
use rflpc.Base.Word.{shr, set_bit, clr_bit, put_field}

-- The registers PINSEL0.., PINMODE0.. and PINMODE_OD0.. by their number.
pub record Pincon : Type 0 where
  pub pinsel : ℕ → ℕ
  pub pinmode : ℕ → ℕ
  pub pinmode_od : ℕ → ℕ

-- `RFLPC_PIN_GET_PORT` and `RFLPC_PIN_GET_PIN`
unfoldable pub get_port : ℕ → ℕ
get_port p = bit_and (shr p 5) 0x7

unfoldable pub get_pin : ℕ → ℕ
get_pin p = bit_and p 0x1f

-- `register_idx` and `pin` after the test.
unfoldable pub register_idx : ℕ → ℕ
register_idx p = if leb 16 (get_pin p) then 2 * get_port p + 1 else 2 * get_port p

unfoldable pub pin_in_register : ℕ → ℕ
pin_in_register p = if leb 16 (get_pin p) then get_pin p - 16 else get_pin p

abbrev pub with_register : (ℕ → ℕ) → ℕ → ℕ → ℕ → ℕ
with_register regs i v k = if k == i then v else regs k

-- `rflpc_pin_set`
unfoldable pub pin_set : ℕ → ℕ → ℕ → ℕ → Pincon → Pincon
pin_set p function mode opendrain c =
    let i = register_idx p in
    let pin = pin_in_register p in
    let port = get_port p in
    record {
      pinsel = with_register c.pinsel i (put_field (c.pinsel i) (pin * 2) 2 (bit_and function 0x3));
      pinmode = with_register c.pinmode i (put_field (c.pinmode i) (pin * 2) 2 (bit_and mode 0x3));
      pinmode_od = with_register c.pinmode_od port (
          if opendrain == 0
          then clr_bit (c.pinmode_od port) pin
          else set_bit (c.pinmode_od port) pin);
    }
