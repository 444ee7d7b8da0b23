-- ===== src/Tinylibc/Memcpy/Step.antt =====
-- One step of the copy loops, and any number of them.
use rflpc.Base.{ℕ, ◌+◌, ◌-◌, ◌≤◌, ◌<◌, if◌then◌else◌, ltb, leb, ◌&&◌, ◌≡◌, ◌⊎◌, arith}
use rflpc.Base.Memory.{Memory}
use rflpc.Tinylibc.Memcpy.{Cursor, copy_byte, copy_word}

-- The memory in which the `n` bytes from `s` on are also found from `d` on.
abbrev pub copied : Memory → ℕ → ℕ → ℕ → Memory
copied m d s n a = if leb d a && ltb a (d + n) then m (s + (a - d)) else m a

-- Two buffers of `n` bytes that do not overlap.
abbrev pub AreDisjoint : ℕ → ℕ → ℕ → Type 0
AreDisjoint d s n = (d + n ≤ s) ⊎ (s + n ≤ d)

-- The first `n` bytes are copied and the pointers stand behind them.
pub record IsCopied (m : Memory) (d s n : ℕ) (c : Cursor) : Type 0 where
  pub dest_at : c.dest ≡ d + n
  pub src_at : c.src ≡ s + n
  pub bytes : (a : ℕ) → c.mem a ≡ copied m d s n a

module _ (m : Memory) (d s total : ℕ) (apart : AreDisjoint d s total) where
  pub copy_byte-IsCopied :
      (n : ℕ) (c : Cursor) → n < total → IsCopied m d s n c → IsCopied m d s (n + 1) (copy_byte c)
  unfolding copy_byte
  copy_byte-IsCopied n c h i = record {
    dest_at = omega (arith, i.dest_at);
    src_at = omega (arith, i.src_at);
    bytes = λ a. ground (arith, i.dest_at, i.src_at, i.bytes a, i.bytes c.src);
  }

  pub copy_word-IsCopied :
      (n : ℕ) (c : Cursor)
      → n + 4 ≤ total
      → IsCopied m d s n c
      → IsCopied m d s (n + 4) (copy_word c)
  unfolding copy_word
  copy_word-IsCopied n c h i = record {
    dest_at = omega (arith, i.dest_at);
    src_at = omega (arith, i.src_at);
    bytes = λ a. ground (
      arith,
      i.dest_at,
      i.src_at,
      i.bytes a,
      i.bytes c.src,
      i.bytes (c.src + 1),
      i.bytes (c.src + 2),
      i.bytes (c.src + 3),
    );
  }
