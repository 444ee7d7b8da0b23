-- ===== src/I2c.antt =====
-- rflpc17xx/drivers/i2c.c: the vocabulary of the I2C driver. Each access to a register of a port is
-- an entry of a log; what the bus answers (I2STAT, I2DAT) is an input of the operations.
pub mod Write
pub mod Read
pub mod Init
mod Tests
use rflpc.Base.{ℕ, ◌+◌, ◌*◌, ◌^◌, bit_and, bit_or, List, Bool}
use rflpc.Base.Word.{u16, shl}

-- `rflpc_i2c_mode_t`
pub data Mode : Type 0 where
  master slave : Mode

-- `rflpc_i2c_status_t`
pub data Status : Type 0 where
  successful_transmission size_equal_to_zero slave_is_busy : Status
  slave_did_not_acknowledged_data master_did_not_acknowledged_data : Status
  stop_condition_received slave_transmitted_data unknown_error not_yet_implemented : Status

abbrev pub status_code : Status → ℕ
status_code successful_transmission = 0
status_code size_equal_to_zero = 1
status_code slave_is_busy = 2
status_code slave_did_not_acknowledged_data = 3
status_code master_did_not_acknowledged_data = 4
status_code stop_condition_received = 5
status_code slave_transmitted_data = 6
status_code unknown_error = 7
status_code not_yet_implemented = 8

-- Flags of I2CONSET and I2CONCLR.
abbrev pub flag_aa : ℕ
flag_aa = 0x04

abbrev pub flag_si : ℕ
flag_si = 0x08

abbrev pub flag_sto : ℕ
flag_sto = 0x10

abbrev pub flag_sta : ℕ
flag_sta = 0x20

-- A write to I2DAT, I2CONSET or I2CONCLR of a port.
pub data Access : Type 0 where
  dat conset conclr : ℕ → ℕ → Access

-- `RFLPC_I2C_WRITE_DAT`, `RFLPC_I2C_WRITE_CONSET` and `RFLPC_I2C_WRITE_CONCLR`, with their masks.
abbrev pub write_dat : ℕ → ℕ → Access
write_dat port byte = dat port (bit_and byte 0xff)

abbrev pub write_conset : ℕ → ℕ → Access
write_conset port flag = conset port (bit_and flag 0x7c)

abbrev pub write_conclr : ℕ → ℕ → Access
write_conclr port flag = conclr port (bit_and flag 0x6c)

-- `RFLPC_I2C_RETURN`
unfoldable pub return_word : Status → ℕ → ℕ
return_word s nbytes = u16 (bit_or (shl (status_code s) 8) nbytes)
