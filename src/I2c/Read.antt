-- ===== src/I2c/Read.antt =====
-- rflpc17xx/drivers/i2c.c, rflpc_i2c_read: one step of the automaton for each pair of values of
-- I2STAT and I2DAT that the loop meets, and the loop over them.
pub mod Master
pub mod Acks
use rflpc.Base.{ℕ, ◌+◌, ◌==◌, if◌then◌else◌, ltb, bit_and, bit_or, List, [], ◌∷◌, ◌++◌}
use rflpc.Base.Word.{u8}
use rflpc.Base.Memory.{Memory, store}
use rflpc.I2c.{
  Mode, master, slave, Access, write_dat, write_conset, write_conclr, return_word, flag_aa, flag_si,
  flag_sto, flag_sta, successful_transmission, slave_is_busy, stop_condition_received,
  slave_transmitted_data, not_yet_implemented,
}
use rflpc.I2c.Write
use rflpc.I2c.Write.{write}

-- The static variables of the driver: `_mode` and `_slave_transmitter_config`.
pub record Driver : Type 0 where
  pub mode : Mode
  pub slave_data : ℕ
  pub slave_size : ℕ

-- `rflpc_i2c_set_slave_transmitter_config`
unfoldable pub set_slave_transmitter_config : ℕ → ℕ → Driver → Driver
set_slave_transmitter_config buffer size d =
    if size == 0 then d else record d { slave_data = buffer; slave_size = size }

-- The variables of the loop, and the memory that `data` points into.
pub record Receiver : Type 0 where
  pub ptr : ℕ
  pub nbytes : ℕ
  pub realnbytes : ℕ
  pub mem : Memory

pub data Round : Type 0 where
  again : Receiver → List Access → Round
  returned : ℕ → Memory → List Access → Round
  blocked : Receiver → List Access → Round

pub data Outcome : Type 0 where
  done : ℕ → Memory → List Access → Outcome
  waiting : Receiver → List Access → Outcome

-- `*data = …; realnbytes += 1;`
abbrev pub take_byte : Receiver → ℕ → Receiver
take_byte x byte = record x {
  realnbytes = u8 (x.realnbytes + 1);
  mem = store x.mem x.ptr (bit_and byte 0xff);
}

-- `nbytes -= 1;`
abbrev pub one_less : Receiver → Receiver
one_less x = record x { nbytes = u8 (x.nbytes + 255) }

-- `data += 1;`
abbrev pub move_on : Receiver → Receiver
move_on x = record x { ptr = x.ptr + 1 }

-- State 0xA8: the transmission is left to `rflpc_i2c_write` on port 2, for which `states` are the
-- values of I2STAT from here on.
unfoldable pub transmit_as_slave : Driver → List ℕ → Receiver → Round
transmit_as_slave d states x = elim (write x.mem 2 0 d.slave_data d.slave_size 0 states) [
  | Write.done tmp log ↦
      (if tmp == d.slave_size
        then returned (return_word slave_transmitted_data d.slave_size) x.mem log
        else returned tmp x.mem log)
  | Write.waiting y log ↦ blocked x log
]

-- What was accessed first stands first.
abbrev pub after : List Access → Outcome → Outcome
after log (done code mem rest) = done code mem (log ++ rest)
after log (waiting x rest) = waiting x (log ++ rest)

module _ (d : Driver) (port addr stop : ℕ) where
  -- The states of the slave receiver. A state that has no case changes nothing.
  unfoldable pub slave_round : List ℕ → ℕ → ℕ → Receiver → Round
  slave_round port2 state byte x =
      if state == 0x60
      then again x (write_conset port flag_aa ∷ write_conclr port flag_si ∷ [])
      else if state == 0x68
      then returned (return_word not_yet_implemented state) x.mem []
      else if state == 0x70
      then returned (return_word not_yet_implemented state) x.mem []
      else if state == 0x78
      then returned (return_word not_yet_implemented state) x.mem []
      else if state == 0x80
      then (let y = one_less (take_byte x byte) in
          if y.nbytes == 0
          then again y (write_conclr port flag_aa ∷ write_conclr port flag_si ∷ [])
          else again (move_on y) (write_conset port flag_aa ∷ write_conclr port flag_si ∷ []))
      else if state == 0x88
      then returned (return_word successful_transmission x.realnbytes) x.mem
          (write_conset port flag_aa ∷ write_conclr port flag_si ∷ [])
      else if state == 0x90
      then returned (return_word not_yet_implemented state) x.mem []
      else if state == 0x98
      then returned (return_word not_yet_implemented state) x.mem []
      else if state == 0xa0
      then returned (return_word stop_condition_received x.realnbytes) x.mem
          (write_conset port flag_aa ∷ write_conclr port flag_si ∷ [])
      else if state == 0xa8
      then transmit_as_slave d port2 x
      else again x []

  -- The body of the switch: the states of the master receiver, then the slave's.
  unfoldable pub round : List ℕ → ℕ → ℕ → Receiver → Round
  round port2 state byte x =
      if state == 0xf8
      then elim d.mode [ master ↦ again x (write_conset port flag_sta ∷ []) | slave ↦ again x [] ]
      else if state == 0x08
      then again x (write_dat port (bit_or addr 1) ∷ write_conclr port flag_si ∷ [])
      else if state == 0x10
      then again x (write_dat port (bit_or addr 1) ∷ write_conclr port flag_si ∷ [])
      else if state == 0x40
      then (if ltb 1 x.nbytes
          then again x
              (write_conset port flag_aa ∷ write_conclr port (bit_or flag_sta flag_si) ∷ [])
          else again x (write_conclr port (bit_or flag_sta flag_si) ∷ []))
      else if state == 0x48
      then returned (return_word slave_is_busy 0) x.mem
          (write_conset port flag_sto ∷ write_conclr port flag_si ∷ [])
      else if state == 0x50
      then (let y = one_less (move_on (take_byte x byte)) in
          if ltb 1 y.nbytes
          then again y (write_conset port flag_aa ∷ write_conclr port flag_si ∷ [])
          else again y (write_conclr port flag_aa ∷ write_conclr port flag_si ∷ []))
      else if state == 0x58
      then (let y = take_byte x byte in
          returned (return_word successful_transmission y.realnbytes) y.mem (
            (if stop == 0 then write_conset port flag_sta else write_conset port flag_sto)
            ∷ write_conclr port flag_si
            ∷ []))
      else slave_round port2 state byte x

  -- The loop over the pairs of I2STAT and I2DAT. A zero in I2STAT ends it with -1.
  unfoldable pub rounds : List ℕ → List (ℕ × ℕ) → Receiver → Outcome
  rounds port2 [] x = waiting x []
  rounds port2 ((state, byte) ∷ states) x =
      if state == 0 then done 0xffff x.mem [] else elim (round port2 state byte x) [
        | again y log ↦ after log (rounds port2 states y)
        | returned code mem log ↦ done code mem log
        | blocked y log ↦ waiting y log
      ]

-- `rflpc_i2c_read (port, addr, data, nbytes, stop)`: the values that I2STAT and I2DAT show, and
-- those of I2STAT that port 2 shows once the driver transmits as a slave.
unfoldable pub read : Driver → Memory → ℕ → ℕ → ℕ → ℕ → ℕ → List ℕ → List (ℕ × ℕ) → Outcome
read d mem port addr ptr nbytes stop port2 states =
    rounds d port addr stop port2 states
      (record { ptr = ptr; nbytes = nbytes; realnbytes = 0; mem = mem })
