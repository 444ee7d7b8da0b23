-- ===== src/I2c/Write.antt =====
-- rflpc17xx/drivers/i2c.c, rflpc_i2c_write: one step of the automaton for each value of I2STAT that
-- the loop reads, and the loop over the values that the bus shows.
pub mod Master
pub mod Bounds
pub mod Slave
use rflpc.Base.{ℕ, ◌+◌, ◌-◌, ◌%◌, ◌==◌, if◌then◌else◌, bit_or, List, [], ◌∷◌, ◌++◌}
use rflpc.Base.Word.{u8}
use rflpc.Base.Memory.{Memory}
use rflpc.I2c.{
  Access, write_dat, write_conset, write_conclr, return_word, flag_aa, flag_si, flag_sto, flag_sta,
  successful_transmission, size_equal_to_zero, slave_is_busy, slave_did_not_acknowledged_data,
  unknown_error, not_yet_implemented,
}

-- The variables of the loop: `data`, `nbytes` and `realnbytes`, the last two of 8 bits.
pub record Sender : Type 0 where
  pub ptr : ℕ
  pub nbytes : ℕ
  pub realnbytes : ℕ

-- What one round does: go on with new variables, or return a word; with the register accesses.
pub data Round : Type 0 where
  again : Sender → List Access → Round
  returned : ℕ → List Access → Round

-- How a call ends: it returns, or it still waits for the bus when no more values come.
pub data Outcome : Type 0 where
  done : ℕ → List Access → Outcome
  waiting : Sender → List Access → Outcome

-- `nbytes -= 1; realnbytes += 1;`
abbrev pub count_byte : Sender → Sender
count_byte x = record x { nbytes = u8 (x.nbytes + 255); realnbytes = u8 (x.realnbytes + 1) }

-- The same, and `data += 1`.
abbrev pub next_byte : Sender → Sender
next_byte x = record {
  ptr = x.ptr + 1;
  nbytes = u8 (x.nbytes + 255);
  realnbytes = u8 (x.realnbytes + 1);
}

-- What was accessed first stands first.
abbrev pub after : List Access → Outcome → Outcome
after log (done code rest) = done code (log ++ rest)
after log (waiting x rest) = waiting x (log ++ rest)

module _ (mem : Memory) (port addr stop : ℕ) where
  -- `if (stop) … STO … else … STA …`
  unfoldable pub end_condition : Access
  end_condition = if stop == 0 then write_conset port flag_sta else write_conset port flag_sto

  -- The states of the slave transmitter. A state that has no case changes nothing.
  unfoldable pub slave_round : ℕ → Sender → Round
  slave_round state x =
      if state == 0xa8
      then (let y = count_byte x in
          if y.nbytes == 0
          then again y (
              write_dat port (mem x.ptr)
              ∷ write_conclr port flag_aa
              ∷ write_conclr port flag_si
              ∷ [])
          else again (record y { ptr = x.ptr + 1 })
              (write_dat port (mem x.ptr)
                ∷ write_conset port flag_aa
                ∷ write_conclr port flag_si
                ∷ []))
      else if state == 0xb0
      then returned (return_word not_yet_implemented state) []
      else if state == 0xb8
      then again (count_byte x)
          (write_dat port (mem x.ptr) ∷ write_conset port flag_aa ∷ write_conclr port flag_si ∷ [])
      else if state == 0xc0
      then returned (return_word successful_transmission x.realnbytes)
          (write_conset port flag_aa ∷ write_conclr port flag_si ∷ [])
      else if state == 0xc8
      then returned (return_word successful_transmission x.realnbytes)
          (write_conset port flag_aa ∷ write_conclr port flag_si ∷ [])
      else again x []

  -- The body of the switch: the states of the master transmitter, then the slave's.
  unfoldable pub round : ℕ → Sender → Round
  round state x =
      if state == 0xf8
      then again x (write_conset port flag_sta ∷ [])
      else if state == 0x08
      then again x (write_dat port addr ∷ write_conclr port flag_si ∷ [])
      else if state == 0x10
      then again x (write_dat port addr ∷ write_conclr port flag_si ∷ [])
      else if state == 0x18
      then (if x.nbytes == 0
          then returned (return_word size_equal_to_zero 0)
              (write_conset port flag_sto ∷ write_conclr port flag_si ∷ [])
          else again (next_byte x)
              (write_dat port (mem x.ptr) ∷ write_conclr port (bit_or flag_sta flag_si) ∷ []))
      else if state == 0x20
      then returned (return_word slave_is_busy 0)
          (write_conset port flag_sto ∷ write_conclr port flag_si ∷ [])
      else if state == 0x28
      then (if x.nbytes == 0
          then returned (return_word successful_transmission x.realnbytes)
              (end_condition ∷ write_conclr port flag_si ∷ [])
          else again (next_byte x) (write_dat port (mem x.ptr) ∷ write_conclr port flag_si ∷ []))
      else if state == 0x30
      then returned (return_word slave_did_not_acknowledged_data x.realnbytes)
          (write_conset port flag_sto ∷ write_conclr port flag_si ∷ [])
      else if state == 0x38
      then again x (write_conset port flag_sta ∷ write_conclr port flag_si ∷ [])
      else slave_round state x

  -- The loop over the values that I2STAT shows, each read once SI is set. It ends at a zero.
  unfoldable pub rounds : List ℕ → Sender → Outcome
  rounds [] x = waiting x []
  rounds (state ∷ states) x =
      if state == 0
      then done (return_word unknown_error x.realnbytes) []
      else elim (round state x) [
        | again y log ↦ after log (rounds states y)
        | returned code log ↦ done code log
      ]

-- `rflpc_i2c_write (port, addr, data, nbytes, stop)`, on the values that I2STAT shows.
unfoldable pub write : Memory → ℕ → ℕ → ℕ → ℕ → ℕ → List ℕ → Outcome
write mem port addr ptr nbytes stop states =
    rounds mem port addr stop states (record { ptr = ptr; nbytes = nbytes; realnbytes = 0 })
