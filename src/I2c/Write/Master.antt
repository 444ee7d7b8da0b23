-- ===== src/I2c/Write/Master.antt =====
-- rflpc_i2c_write as a master: what goes over the bus, and what the caller is told.
use rflpc.Base.{
  ℕ, zero, suc, ◌+◌, ◌-◌, ◌*◌, ◌≤◌, ◌<◌, bit_and, ◌≡◌, ◌≢◌, refl, ap, List, [], ◌∷◌, ◌++◌, Option,
  none, some, arith, replicate,
}
use mathlib.Core.List.{append-nil}
use rflpc.Base.Bits.{bit_and-mask, bit_or-add}
use rflpc.Base.Memory.{Memory, load_all}
use rflpc.I2c.{
  Access, dat, conset, conclr, Status, status_code, return_word, successful_transmission,
  slave_did_not_acknowledged_data,
}
use rflpc.I2c.Write.{
  Sender, Outcome, done, waiting, next_byte, after, end_condition, round, rounds, write,
}

-- The word that a call returned.
abbrev pub code : Outcome → Option ℕ
code (done w log) = some w
code (waiting x log) = none

abbrev pub log_of : Outcome → List Access
log_of (done w log) = log
log_of (waiting x log) = log

-- The bytes put into I2DAT, in order.
abbrev pub sent : List Access → List ℕ
sent [] = []
sent (dat port b ∷ log) = b ∷ sent log
sent (conset port f ∷ log) = sent log
sent (conclr port f ∷ log) = sent log

abbrev pub IsBytes : Memory → Type 0
IsBytes mem = (a : ℕ) → mem a < 256

pub sent-append : (xs ys : List Access) → sent (xs ++ ys) ≡ sent xs ++ sent ys
sent-append [] ys = refl
sent-append (dat port b ∷ xs) ys = ap (λ t. b ∷ t) (sent-append xs ys)
sent-append (conset port f ∷ xs) ys = sent-append xs ys
sent-append (conclr port f ∷ xs) ys = sent-append xs ys

pub code-after : (log : List Access) (o : Outcome) → code (after log o) ≡ code o
code-after log (done w rest) = refl
code-after log (waiting x rest) = refl

pub log-after : (log : List Access) (o : Outcome) → log_of (after log o) ≡ log ++ log_of o
log-after log (done w rest) = refl
log-after log (waiting x rest) = refl

pub mask_byte : (b : ℕ) → b < 256 → bit_and b 0xff ≡ b
mask_byte b h = omega (arith, bit_and-mask 8 b)

status_code-le : (s : Status) → status_code s ≤ 8
status_code-le s = ground arith

-- The status is in the upper byte and the count in the lower one.
pub return_word_lem : (s : Status) (n : ℕ) → n < 256 → return_word s n ≡ status_code s * 256 + n
unfolding return_word
return_word_lem s n h =
    omega (arith, bit_or-add 8 (status_code s) n (omega arith), status_code-le s)

replicate_last : (k a : ℕ) → replicate (suc k) a ≡ replicate k a ++ a ∷ []
replicate_last zero a = refl
replicate_last (suc k) a = ap (λ t. a ∷ t) (replicate_last k a)

-- `k` data bytes later.
abbrev pub advance : ℕ → Sender → Sender
advance zero x = x
advance (suc k) x = advance k (next_byte x)

-- The counters after `k` bytes do not wrap.
advance_lem :
    (k : ℕ) (x : Sender)
    → k ≤ x.nbytes
    → x.realnbytes + x.nbytes < 256
    → ((advance k x).nbytes ≡ x.nbytes - k) × ((advance k x).realnbytes ≡ x.realnbytes + k)
advance_lem zero x h small = omega arith
advance_lem (suc k) x h small =
    omega (arith, advance_lem k (next_byte x) (omega arith) (omega arith))

module _ (mem : Memory) (port addr stop : ℕ) (bytes : IsBytes mem) where
  -- One round on an acknowledgement sends the next byte.
  rounds_ack :
      (rest : List ℕ) (x : Sender)
      → x.nbytes ≢ 0
      → rounds mem port addr stop (0x28 ∷ rest) x
        ≡ after
            (dat port (mem x.ptr) ∷ conclr port 0x08 ∷ [])
            (rounds mem port addr stop rest (next_byte x))
  unfolding rounds round
  rounds_ack rest x h = ground (arith, mask_byte (mem x.ptr) (bytes x.ptr))

  -- The bytes that `k` acknowledgements send, before whatever the bus does next.
  rounds_acks :
      (k : ℕ) (rest : List ℕ) (x : Sender)
      → k ≤ x.nbytes
      → x.nbytes < 256
      → (code (rounds mem port addr stop (replicate k 0x28 ++ rest) x)
          ≡ code (rounds mem port addr stop rest (advance k x)))
        × (sent (log_of (rounds mem port addr stop (replicate k 0x28 ++ rest) x))
            ≡ load_all mem x.ptr k ++ sent (log_of (rounds mem port addr stop rest (advance k x))))
  rounds_acks zero rest x h small = (refl, refl)
  rounds_acks (suc k) rest x h small =
      let tail = rounds mem port addr stop (replicate k 0x28 ++ rest) (next_byte x) in
      let (codes, sents) = rounds_acks k rest (next_byte x) (omega arith) (omega arith) in
      rw (rounds_ack (replicate k 0x28 ++ rest) x (omega arith))
        (rw code-after codes, rw log-after (ap (λ t. mem x.ptr ∷ t) sents))

  -- The start of a transmission: START, address and first data byte, each acknowledged.
  rounds_start :
      (rest : List ℕ) (x : Sender)
      → addr < 256
      → x.nbytes ≢ 0
      → rounds mem port addr stop (0xf8 ∷ 0x08 ∷ 0x18 ∷ rest) x
        ≡ after (conset port 0x20 ∷ []) (
            after (dat port addr ∷ conclr port 0x08 ∷ []) (
              after
                (dat port (mem x.ptr) ∷ conclr port 0x28 ∷ [])
                (rounds mem port addr stop rest (next_byte x))))
  unfolding rounds round
  rounds_start rest x ha h = ground (arith, mask_byte (mem x.ptr) (bytes x.ptr), mask_byte addr ha)

  -- A transmission up to `k` acknowledged data bytes after the first.
  rounds_transmission :
      (k : ℕ) (rest : List ℕ) (x : Sender)
      → addr < 256
      → suc k ≤ x.nbytes
      → x.nbytes < 256
      → let o = rounds mem port addr stop (0xf8 ∷ 0x08 ∷ 0x18 ∷ (replicate k 0x28 ++ rest)) x in
        let o' = rounds mem port addr stop rest (advance (suc k) x) in
        (code o ≡ code o')
        × (sent (log_of o) ≡ addr ∷ (load_all mem x.ptr (suc k) ++ sent (log_of o')))
  rounds_transmission k rest x ha h small =
      let (codes, sents) = rounds_acks k rest (next_byte x) (omega arith) (omega arith) in
      rw (rounds_start (replicate k 0x28 ++ rest) x ha (omega arith))
        (simp code-after codes, simp log-after (ap (λ t. addr ∷ mem x.ptr ∷ t) sents))

  -- What the states that end a transmission return.
  rounds_last_ack :
      (x : Sender)
      → x.nbytes ≡ 0
      → x.realnbytes < 256
      → (code (rounds mem port addr stop (0x28 ∷ []) x) ≡ some x.realnbytes)
        × (sent (log_of (rounds mem port addr stop (0x28 ∷ []) x)) ≡ [])
  unfolding rounds round end_condition
  rounds_last_ack x h small =
      ground (arith, return_word_lem successful_transmission x.realnbytes small)

  rounds_nack :
      (x : Sender)
      → x.realnbytes < 256
      → (code (rounds mem port addr stop (0x30 ∷ []) x) ≡ some (3 * 256 + x.realnbytes))
        × (sent (log_of (rounds mem port addr stop (0x30 ∷ []) x)) ≡ [])
  unfolding rounds round
  rounds_nack x small =
      ground (arith, return_word_lem slave_did_not_acknowledged_data x.realnbytes small)

-- If the slave acknowledges its address and each of the `n` data bytes (0 < n < 256), then
-- `rflpc_i2c_write` returns status 0 with the count `n`, and what it has put on the bus is the
-- address followed by the `n` bytes of the caller's buffer in order.
pub write_delivers :
    (mem : Memory) (port addr ptr n stop : ℕ)
    → IsBytes mem
    → addr < 256
    → 0 < n
    → n < 256
    → let o = write mem port addr ptr n stop (0xf8 ∷ 0x08 ∷ 0x18 ∷ replicate n 0x28) in
      (code o ≡ some n) × (sent (log_of o) ≡ addr ∷ load_all mem ptr n)
unfolding write
write_delivers mem port addr ptr zero stop bytes ha pos small = absurd (omega arith)
write_delivers mem port addr ptr (suc k) stop bytes ha pos small =
    let x : Sender = record { ptr = ptr; nbytes = suc k; realnbytes = 0 } in
    ground (
      arith,
      replicate_last k 0x28,
      rounds_transmission mem port addr stop bytes k (0x28 ∷ []) x ha (omega arith) small,
      advance_lem (suc k) x (omega arith) (omega arith),
      rounds_last_ack mem port addr stop bytes (advance (suc k) x),
      append-nil (load_all mem ptr (suc k)),
    )

-- If the slave refuses the data byte number `k + 1` (k < n), `rflpc_i2c_write` returns the status
-- SLAVE_DID_NOT_ACKNOWLEDGED_DATA with the count `k + 1`, and has put on the bus the address and
-- the first `k + 1` bytes, no more.
pub write_refused :
    (mem : Memory) (port addr ptr n stop k : ℕ)
    → IsBytes mem
    → addr < 256
    → k < n
    → n < 256
    → let o =
        write mem port addr ptr n stop (0xf8 ∷ 0x08 ∷ 0x18 ∷ (replicate k 0x28 ++ 0x30 ∷ [])) in
      (code o ≡ some (3 * 256 + (k + 1))) × (sent (log_of o) ≡ addr ∷ load_all mem ptr (k + 1))
unfolding write
write_refused mem port addr ptr n stop k bytes ha lt small =
    let x : Sender = record { ptr = ptr; nbytes = n; realnbytes = 0 } in
    ground (
      arith,
      rounds_transmission mem port addr stop bytes k (0x30 ∷ []) x ha (omega arith) small,
      advance_lem (suc k) x (omega arith) (omega arith),
      rounds_nack mem port addr stop bytes (advance (suc k) x),
      append-nil (load_all mem ptr (suc k)),
    )
