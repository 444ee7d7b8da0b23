-- ===== src/Tinylibc/Memset/Step.antt =====
-- One step of the fill loops.
use rflpc.Base.{ℕ, ◌+◌, ◌*◌, ◌<◌, if◌then◌else◌, ltb, leb, ◌&&◌, ◌≡◌, bit_or, arith}
use rflpc.Base.Bits.{bit_or-add}
use rflpc.Base.Word.{shl}
use rflpc.Base.Memory.{Memory}
use rflpc.Tinylibc.Memset.{Filler, set_byte, set_word, word_of}

-- The memory with `c` in the `n` bytes from `d` on.
abbrev pub filled : Memory → ℕ → ℕ → ℕ → Memory
filled m d c n a = if leb d a && ltb a (d + n) then c else m a

-- The first `n` bytes are filled and the pointer stands behind them.
pub record IsFilled (m : Memory) (d c n : ℕ) (f : Filler) : Type 0 where
  pub dest_at : f.dest ≡ d + n
  pub bytes : (a : ℕ) → f.mem a ≡ filled m d c n a

-- The word has the byte four times.
word_of_sum : (c : ℕ) → c < 256 → word_of c ≡ c * 16843009
unfolding word_of
word_of_sum c h =
    let two : bit_or (shl c 24) (shl c 16) ≡ shl (c * 257) 16 =
      omega (arith, bit_or-add 24 c (shl c 16) (omega arith)) in
    let three : bit_or (shl (c * 257) 16) (shl c 8) ≡ shl (c * 65793) 8 =
      omega (arith, bit_or-add 16 (c * 257) (shl c 8) (omega arith)) in
    let four : bit_or (shl (c * 65793) 8) c ≡ c * 16843009 =
      omega (arith, bit_or-add 8 (c * 65793) c (omega arith)) in
    rw (two, three, four) (omega arith)

module _ (m : Memory) (d c : ℕ) (small : c < 256) where
  pub set_byte-IsFilled :
      (n : ℕ) (f : Filler) → IsFilled m d c n f → IsFilled m d c (n + 1) (set_byte c f)
  unfolding set_byte
  set_byte-IsFilled n f i = record {
    dest_at = omega (arith, i.dest_at);
    bytes = λ a. ground (arith, i.dest_at, i.bytes a);
  }

  pub set_word-IsFilled :
      (n : ℕ) (f : Filler) → IsFilled m d c n f → IsFilled m d c (n + 4) (set_word (word_of c) f)
  unfolding set_word
  set_word-IsFilled n f i = record {
    dest_at = omega (arith, i.dest_at);
    bytes = λ a. ground (arith, i.dest_at, i.bytes a, word_of_sum c small);
  }
