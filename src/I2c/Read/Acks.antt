-- ===== src/I2c/Read/Acks.antt =====
-- rflpc_i2c_read as a master: which of the bytes that it receives it acknowledges.
use rflpc.Base.{
  ℕ, ◌-◌, ◌<◌, ◌≡◌, ◌≢◌, refl, ap, ◌∙◌, List, [], ◌∷◌, ◌++◌, Bool, true, false, length, ltb, ◌==◌,
  if◌then◌else◌, bit_and, bit_or, arith,
}
use rflpc.Base.Memory.{Memory}
use rflpc.I2c.{Access, dat, conset, conclr, flag_aa, write_dat}
use rflpc.I2c.Read.{
  Driver, Receiver, Outcome, after, round, rounds, read, take_byte, one_less, move_on,
}
use rflpc.I2c.Read.Master.{log_of, log-after}

-- The flag AA after the accesses of a log: while it is set the port answers a byte by ACK.
abbrev pub aa : Bool → List Access → Bool
aa a [] = a
aa a (dat port b ∷ log) = aa a log
aa a (conset port f ∷ log) = aa (if bit_and f flag_aa == 0 then a else true) log
aa a (conclr port f ∷ log) = aa (if bit_and f flag_aa == 0 then a else false) log

aa-append : (a : Bool) (xs ys : List Access) → aa a (xs ++ ys) ≡ aa (aa a xs) ys
aa-append a [] ys = refl
aa-append a (dat port b ∷ xs) ys = aa-append a xs ys
aa-append a (conset port f ∷ xs) ys = aa-append (if bit_and f flag_aa == 0 then a else true) xs ys
aa-append a (conclr port f ∷ xs) ys = aa-append (if bit_and f flag_aa == 0 then a else false) xs ys

aa-after :
    (a : Bool) (log : List Access) (o : Outcome)
    → aa a (log_of (after log o)) ≡ aa (aa a log) (log_of o)
aa-after a log o = rw log-after (aa-append a log (log_of o))

-- Bytes that arrive with ACK returned.
abbrev pub acknowledged : List ℕ → List (ℕ × ℕ)
acknowledged [] = []
acknowledged (b ∷ bs) = (0x50, b) ∷ acknowledged bs

module _ (d : Driver) (port addr stop : ℕ) (port2 : List ℕ) where
  aa_byte :
      (a : Bool) (b : ℕ) (rest : List (ℕ × ℕ)) (x : Receiver)
      → x.nbytes ≢ 0
      → x.nbytes < 256
      → aa a (log_of (rounds d port addr stop port2 ((0x50, b) ∷ rest) x))
        ≡ aa
            (ltb 1 (x.nbytes - 1))
            (log_of (rounds d port addr stop port2 rest (one_less (move_on (take_byte x b)))))
  unfolding rounds round
  aa_byte a b rest x pos small =
      let onward = rounds d port addr stop port2 rest (one_less (move_on (take_byte x b))) in
      ground (
        arith,
        aa-after a (conset port 0x04 ∷ conclr port 0x08 ∷ []) onward,
        aa-after a (conclr port 0x04 ∷ conclr port 0x08 ∷ []) onward,
      )

  aa_bytes :
      (bs : List ℕ) (a : Bool) (x : Receiver)
      → a ≡ ltb 1 x.nbytes
      → length bs < x.nbytes
      → x.nbytes < 256
      → aa a (log_of (rounds d port addr stop port2 (acknowledged bs) x))
        ≡ ltb 1 (x.nbytes - length bs)
  aa_bytes [] a x e h small = unfold rounds in ground arith
  aa_bytes (b ∷ bs) a x e h small =
      aa_byte a b (acknowledged bs) x (omega arith) small
      ∙ aa_bytes bs (ltb 1 (x.nbytes - 1)) (one_less (move_on (take_byte x b)))
          (ap (λ t. ltb 1 t) (omega arith)) (omega arith) (omega arith)
      ∙ ap (λ t. ltb 1 t) (omega arith)

  aa_idle :
      (a : Bool) (i : ℕ) (rest : List (ℕ × ℕ)) (x : Receiver)
      → aa a (log_of (rounds d port addr stop port2 ((0xf8, i) ∷ rest) x))
        ≡ aa a (log_of (rounds d port addr stop port2 rest x))
  unfolding rounds round
  aa_idle a i rest x =
      let onward = rounds d port addr stop port2 rest x in
      ground (arith, aa-after a [] onward, aa-after a (conset port 0x20 ∷ []) onward)

  aa_address :
      (a : Bool) (j : ℕ) (rest : List (ℕ × ℕ)) (x : Receiver)
      → aa a (log_of (rounds d port addr stop port2 ((0x08, j) ∷ rest) x))
        ≡ aa a (log_of (rounds d port addr stop port2 rest x))
  unfolding rounds round
  aa_address a j rest x =
      aa-after a (write_dat port (bit_or addr 1) ∷ conclr port 0x08 ∷ [])
        (rounds d port addr stop port2 rest x)

  aa_addressed :
      (k : ℕ) (rest : List (ℕ × ℕ)) (x : Receiver)
      → aa false (log_of (rounds d port addr stop port2 ((0x40, k) ∷ rest) x))
        ≡ aa (ltb 1 x.nbytes) (log_of (rounds d port addr stop port2 rest x))
  unfolding rounds round
  aa_addressed k rest x =
      let onward = rounds d port addr stop port2 rest x in
      ground (
        arith,
        aa-after false (conset port 0x04 ∷ conclr port 0x28 ∷ []) onward,
        aa-after false (conclr port 0x28 ∷ []) onward,
      )

-- A read of `n` bytes (n < 256) that starts with the flag AA clear: once the address is
-- acknowledged and the bytes `bs`, fewer than `n`, have arrived, the flag AA is set exactly if more than
-- one byte is still to come. So the driver answers each byte but the last one by ACK, and the
-- last one by NOT ACK.
pub read_acks :
    (d : Driver) (mem : Memory) (port addr ptr n stop : ℕ) (port2 : List ℕ) (i j k : ℕ)
    (bs : List ℕ)
    → length bs < n
    → n < 256
    → aa false (
        log_of (
          read d mem port addr ptr n stop port2
            ((0xf8, i) ∷ (0x08, j) ∷ (0x40, k) ∷ acknowledged bs)))
      ≡ ltb 1 (n - length bs)
unfolding read
read_acks d mem port addr ptr n stop port2 i j k bs h small =
    let x : Receiver = record { ptr = ptr; nbytes = n; realnbytes = 0; mem = mem } in
    aa_idle d port addr stop port2 false i ((0x08, j) ∷ (0x40, k) ∷ acknowledged bs) x
    ∙ aa_address d port addr stop port2 false j ((0x40, k) ∷ acknowledged bs) x
    ∙ aa_addressed d port addr stop port2 k (acknowledged bs) x
    ∙ aa_bytes d port addr stop port2 bs (ltb 1 n) x refl h small
