-- ===== src/I2c/Read/Master.antt =====
-- rflpc_i2c_read as a master: the bytes that the slave sends, and when the driver acknowledges.
use rflpc.Base.{
  ℕ, ◌+◌, ◌-◌, ◌<◌, ◌≡◌, ◌≢◌, bit_or, refl, ap, ◌∙◌, List, [], ◌∷◌, ◌++◌, Option, some, none,
  length, arith,
}
use rflpc.Base.Memory.{Memory, store, store_all}
use rflpc.I2c.{Access, write_dat, conset, conclr, successful_transmission}
use rflpc.I2c.Write.Master.{mask_byte, return_word_lem}
use rflpc.I2c.Read.{Driver, Receiver, Outcome, done, waiting, after, round, rounds, read}

-- The word and the memory that a call returned.
abbrev pub result : Outcome → Option (ℕ × Memory)
result (done w mem log) = some (w, mem)
result (waiting x log) = none

abbrev pub log_of : Outcome → List Access
log_of (done w mem log) = log
log_of (waiting x log) = log

pub result-after : (log : List Access) (o : Outcome) → result (after log o) ≡ result o
result-after log (done w mem rest) = refl
result-after log (waiting x rest) = refl

pub log-after : (log : List Access) (o : Outcome) → log_of (after log o) ≡ log ++ log_of o
log-after log (done w mem rest) = refl
log-after log (waiting x rest) = refl

abbrev pub AreBytes : List ℕ → Type 0
AreBytes [] = Unit {0}
AreBytes (b ∷ bs) = (b < 256) × AreBytes bs

-- Each byte but the last one arrives with ACK returned (0x50), the last with NOT ACK (0x58).
abbrev pub arrivals : List ℕ → ℕ → List (ℕ × ℕ)
arrivals [] z = (0x58, z) ∷ []
arrivals (b ∷ bs) z = (0x50, b) ∷ arrivals bs z

module _ (d : Driver) (port addr stop : ℕ) (port2 : List ℕ) where
  after_byte : ℕ → Receiver → Receiver
  after_byte b x = record {
    ptr = x.ptr + 1;
    nbytes = x.nbytes - 1;
    realnbytes = x.realnbytes + 1;
    mem = store x.mem x.ptr b;
  }

  rounds_byte :
      (b : ℕ) (rest : List (ℕ × ℕ)) (x : Receiver)
      → b < 256
      → x.nbytes ≢ 0
      → x.realnbytes + x.nbytes < 256
      → result (rounds d port addr stop port2 ((0x50, b) ∷ rest) x)
        ≡ result (rounds d port addr stop port2 rest (after_byte b x))
  unfolding rounds round after_byte
  rounds_byte b rest x hb pos small = ground (
    arith,
    mask_byte b hb,
    result-after (conset port 0x04 ∷ conclr port 0x08 ∷ [])
        (rounds d port addr stop port2 rest (after_byte b x)),
    result-after (conclr port 0x04 ∷ conclr port 0x08 ∷ [])
        (rounds d port addr stop port2 rest (after_byte b x)),
  )

  rounds_last :
      (z : ℕ) (x : Receiver)
      → z < 256
      → x.realnbytes + 1 < 256
      → result (rounds d port addr stop port2 ((0x58, z) ∷ []) x)
        ≡ some (x.realnbytes + 1, store x.mem x.ptr z)
  unfolding rounds round
  rounds_last z x hz small =
      ground (arith, mask_byte z hz, return_word_lem successful_transmission (x.realnbytes + 1))

  rounds-arrivals :
      (bs : List ℕ) (z : ℕ) (x : Receiver)
      → AreBytes bs
      → z < 256
      → x.nbytes ≡ length bs + 1
      → x.realnbytes + x.nbytes < 256
      → result (rounds d port addr stop port2 (arrivals bs z) x)
        ≡ some (x.realnbytes + (length bs + 1), store_all x.mem x.ptr (bs ++ z ∷ []))
  unfolding after_byte
  rounds-arrivals [] z x hb hz e small = rounds_last z x hz (omega arith)
  rounds-arrivals (b ∷ bs) z x hb hz e small =
      rounds_byte b (arrivals bs z) x hb.0 (omega arith) small
      ∙ rounds-arrivals bs z (after_byte b x) hb.1 hz (omega arith) (omega arith)
      ∙ ap (λ (t : ℕ). some (t, store_all (store x.mem x.ptr b) (x.ptr + 1) (bs ++ z ∷ [])))
          (omega arith)

  -- START, address and acknowledged address change no variable.
  module _ (rest : List (ℕ × ℕ)) (x : Receiver) where
    abbrev onward : Outcome
    onward = rounds d port addr stop port2 rest x

    rounds_idle :
        (i : ℕ) → result (rounds d port addr stop port2 ((0xf8, i) ∷ rest) x) ≡ result onward
    unfolding rounds round
    rounds_idle i =
        ground (arith, result-after [] onward, result-after (conset port 0x20 ∷ []) onward)

    rounds_address :
        (j : ℕ) → result (rounds d port addr stop port2 ((0x08, j) ∷ rest) x) ≡ result onward
    unfolding rounds round
    rounds_address j = result-after (write_dat port (bit_or addr 1) ∷ conclr port 0x08 ∷ []) onward

    rounds_addressed :
        (k : ℕ) → result (rounds d port addr stop port2 ((0x40, k) ∷ rest) x) ≡ result onward
    unfolding rounds round
    rounds_addressed k = ground (
      arith,
      result-after (conset port 0x04 ∷ conclr port 0x28 ∷ []) onward,
      result-after (conclr port 0x28 ∷ []) onward,
    )

-- If the slave acknowledges its address and then sends `n` bytes (0 < n < 256, here `bs` and a last
-- byte `z`), the last one answered by NOT ACK, `rflpc_i2c_read` returns status 0 with the count
-- `n`, and the memory afterwards is the one before with the `n` bytes stored in order from the
-- caller's pointer on. What I2DAT shows before the first byte does not matter.
pub read_receives :
    (d : Driver) (mem : Memory) (port addr ptr stop : ℕ) (port2 : List ℕ) (i j k : ℕ) (bs : List ℕ)
    (z : ℕ)
    → AreBytes bs
    → z < 256
    → length bs + 1 < 256
    → result (
        read d mem port addr ptr
          (length bs + 1)
          stop
          port2
          ((0xf8, i) ∷ (0x08, j) ∷ (0x40, k) ∷ arrivals bs z))
      ≡ some (length bs + 1, store_all mem ptr (bs ++ z ∷ []))
unfolding read
read_receives d mem port addr ptr stop port2 i j k bs z hb hz small =
    let x : Receiver = record { ptr = ptr; nbytes = length bs + 1; realnbytes = 0; mem = mem } in
    rounds_idle d port addr stop port2 ((0x08, j) ∷ (0x40, k) ∷ arrivals bs z) x i
    ∙ rounds_address d port addr stop port2 ((0x40, k) ∷ arrivals bs z) x j
    ∙ rounds_addressed d port addr stop port2 (arrivals bs z) x k
    ∙ rounds-arrivals d port addr stop port2 bs z x hb hz refl (omega arith)
    ∙ ap (λ (t : ℕ). some (t, store_all mem ptr (bs ++ z ∷ []))) (omega arith)
