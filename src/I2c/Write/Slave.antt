-- ===== src/I2c/Write/Slave.antt =====
-- rflpc_i2c_write as a slave: what a master reads from it.
use rflpc.Base.{ℕ, zero, suc, ◌+◌, ◌<◌, ◌≡◌, ap, List, [], ◌∷◌, ◌++◌, some, replicate, arith}
use rflpc.Base.Memory.{Memory}
use rflpc.I2c.{dat, conset, conclr, successful_transmission}
use rflpc.I2c.Write.{Sender, count_byte, after, round, slave_round, rounds, write}
use rflpc.I2c.Write.Master.{
  IsBytes, code, log_of, sent, code-after, log-after, mask_byte, return_word_lem,
}

module _ (mem : Memory) (port addr stop : ℕ) (bytes : IsBytes mem) where
  rounds_continue :
      (rest : List ℕ) (x : Sender)
      → rounds mem port addr stop (0xb8 ∷ rest) x
        ≡ after
            (dat port (mem x.ptr) ∷ conset port 0x04 ∷ conclr port 0x08 ∷ [])
            (rounds mem port addr stop rest (count_byte x))
  unfolding rounds round slave_round
  rounds_continue rest x = ground (arith, mask_byte (mem x.ptr) (bytes x.ptr))

  rounds_answer :
      (rest : List ℕ) (x : Sender)
      → 1 < x.nbytes
      → x.nbytes < 256
      → rounds mem port addr stop (0xa8 ∷ rest) x
        ≡ after
            (dat port (mem x.ptr) ∷ conset port 0x04 ∷ conclr port 0x08 ∷ [])
            (rounds mem port addr stop rest (record (count_byte x) { ptr = x.ptr + 1 }))
  unfolding rounds round slave_round
  rounds_answer rest x h small = ground (arith, mask_byte (mem x.ptr) (bytes x.ptr))

  rounds_end :
      (x : Sender)
      → x.realnbytes < 256
      → (code (rounds mem port addr stop (0xc0 ∷ []) x) ≡ some x.realnbytes)
        × (sent (log_of (rounds mem port addr stop (0xc0 ∷ []) x)) ≡ [])
  unfolding rounds round slave_round
  rounds_end x small = ground (arith, return_word_lem successful_transmission x.realnbytes small)

  -- The pointer does not move from one byte to the next.
  rounds_repeat :
      (k : ℕ) (x : Sender)
      → x.realnbytes + k < 256
      → let o = rounds mem port addr stop (replicate k 0xb8 ++ 0xc0 ∷ []) x in
        (code o ≡ some (x.realnbytes + k)) × (sent (log_of o) ≡ replicate k (mem x.ptr))
  rounds_repeat zero x small = ground (arith, rounds_end x)
  rounds_repeat (suc k) x small =
      let (codes, sents) = rounds_repeat k (count_byte x) (omega arith) in
      rw (rounds_continue (replicate k 0xb8 ++ 0xc0 ∷ []) x) (
        rw code-after (rw codes (ap some (omega arith))),
        rw log-after (ap (λ t. mem x.ptr ∷ t) sents),
      )

-- A slave with `n` bytes to give (1 < n < 256), from which a master reads `k + 1` bytes (k < 255) and
-- then ends with NOT ACK, sends the first byte of its buffer once and then the second byte `k`
-- times: the buffer pointer is not moved in state 0xB8. The call returns the count `k + 1`.
pub write_repeats :
    (mem : Memory) (port addr ptr n stop k : ℕ)
    → IsBytes mem
    → 1 < n
    → n < 256
    → k < 255
    → let o = write mem port addr ptr n stop (0xa8 ∷ (replicate k 0xb8 ++ 0xc0 ∷ [])) in
      (code o ≡ some (k + 1)) × (sent (log_of o) ≡ mem ptr ∷ replicate k (mem (ptr + 1)))
unfolding write
write_repeats mem port addr ptr n stop k bytes h small hk =
    let x : Sender = record { ptr = ptr; nbytes = n; realnbytes = 0 } in
    let y : Sender = record (count_byte x) { ptr = ptr + 1 } in
    let (codes, sents) = rounds_repeat mem port addr stop bytes k y (omega arith) in
    rw (rounds_answer mem port addr stop bytes (replicate k 0xb8 ++ 0xc0 ∷ []) x h small)
      (rw code-after (rw codes (ap some (omega arith))), rw log-after (ap (λ t. mem ptr ∷ t) sents))
