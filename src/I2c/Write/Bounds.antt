-- ===== src/I2c/Write/Bounds.antt =====
-- rflpc_i2c_write as a master, whatever the bus answers.
use rflpc.Base.{ℕ, ◌+◌, ◌%◌, ◌≤◌, ◌<◌, ◌==◌, ◌≡◌, ◌≢◌, List, [], ◌∷◌, inl, inr, Bool-cases, arith}
use rflpc.Base.Memory.{Memory}
use rflpc.I2c.{
  Access, successful_transmission, slave_did_not_acknowledged_data, size_equal_to_zero,
  slave_is_busy, unknown_error,
}
use rflpc.I2c.Write.{
  Sender, Outcome, done, waiting, Round, again, returned, next_byte, after, round, slave_round,
  rounds,
}
use rflpc.I2c.Write.Master.{return_word_lem}

-- No value of I2STAT of the slave transmitter occurs.
abbrev pub IsMasterRun : List ℕ → Type 0
IsMasterRun [] = Unit {0}
IsMasterRun (s ∷ ss) =
    ((s ≢ 0xa8) × (s ≢ 0xb0) × (s ≢ 0xb8) × (s ≢ 0xc0) × (s ≢ 0xc8)) × IsMasterRun ss

-- `n` bytes from `p` on were asked for, and the counters say how far the transmission is.
pub record IsTransmitting (p n : ℕ) (x : Sender) : Type 0 where
  pub split : x.realnbytes + x.nbytes ≡ n
  pub place : x.ptr ≡ p + x.realnbytes

module _ (mem : Memory) (port addr stop p n : ℕ) (small : n < 256) where
  abbrev RoundKeeps : Round → Type 0
  RoundKeeps (again y log) = IsTransmitting p n y
  RoundKeeps (returned w log) = w % 256 ≤ n

  abbrev pub Keeps : Outcome → Type 0
  Keeps (done w log) = w % 256 ≤ n
  Keeps (waiting y log) = IsTransmitting p n y

  Keeps-after : (log : List Access) (o : Outcome) → Keeps o → Keeps (after log o)
  Keeps-after log (done w rest) h = h
  Keeps-after log (waiting y rest) h = h

  next_byte-IsTransmitting :
      (x : Sender) → x.nbytes ≢ 0 → IsTransmitting p n x → IsTransmitting p n (next_byte x)
  next_byte-IsTransmitting x h t = omega arith

  round-Keeps :
      (s : ℕ) (x : Sender)
      → (s ≢ 0xa8) × (s ≢ 0xb0) × (s ≢ 0xb8) × (s ≢ 0xc0) × (s ≢ 0xc8)
      → IsTransmitting p n x
      → RoundKeeps (round mem port addr stop s x)
  unfolding round slave_round
  round-Keeps s x m t = ground (
    arith,
    next_byte-IsTransmitting x,
    return_word_lem successful_transmission x.realnbytes,
    return_word_lem slave_did_not_acknowledged_data x.realnbytes,
    return_word_lem size_equal_to_zero 0,
    return_word_lem slave_is_busy 0,
  )

  -- For every sequence of master states that the bus may show: as long as `rflpc_i2c_write` waits,
  -- the bytes counted and the bytes left add up to the `n` (< 256) that were asked for and the
  -- data pointer stands that many bytes after the buffer's start; and if it returns, the count in
  -- the lower byte of the word is at most `n`.
  pub rounds-Keeps :
      (states : List ℕ) (x : Sender)
      → IsMasterRun states
      → IsTransmitting p n x
      → Keeps (rounds mem port addr stop states x)
  unfolding rounds
  rounds-Keeps [] x m t = t
  rounds-Keeps (s ∷ ss) x m t = elim (Bool-cases (s == 0)) [
    | inl e ↦ rw e (omega (arith, return_word_lem unknown_error x.realnbytes (omega arith)))
    | inr e ↦
        rw e
          (step (round mem port addr stop s x) (round-Keeps s x m.0 t) (λ y. rounds-Keeps ss y m.1))
  ]
    where
      step :
          (r : Round)
          → RoundKeeps r
          → ((y : Sender) → IsTransmitting p n y → Keeps (rounds mem port addr stop ss y))
          → Keeps (elim r [
            | again y log ↦ after log (rounds mem port addr stop ss y)
            | returned w log ↦ done w log
          ])
      step (again y log) h ih = Keeps-after log (rounds mem port addr stop ss y) (ih y h)
      step (returned w log) h ih = h
