-- ===== src/Tinylibc/Memset/Fills.antt =====
-- memset against a plain fill of the buffer.
use native.Mathlib.Nat.{add-zero}
use rflpc.Base.{
  ℕ, zero, suc, ◌+◌, ◌-◌, ◌*◌, ◌/◌, ◌%◌, ◌^◌, ◌≤◌, ◌<◌, ◌==◌, true, false, ◌≡◌, refl, inl, inr, ◌⊎◌,
  ◌↔◌, ◌≢◌, Bool-cases, arith,
}
use rflpc.Base.Bits.{bit_and-mask}
use rflpc.Base.Word.{u32}
use rflpc.Base.Memory.{Memory}
use rflpc.Tinylibc.Duff.{times, more_rounds, duff, duff-eq-times}
use rflpc.Tinylibc.Memcpy.{is_word_aligned}
use rflpc.Tinylibc.Memset.{
  Filler, set_byte, set_word, word_of, memset_unaligned_fast, memset_aligned_fast, memset_from,
  memset,
}
use rflpc.Tinylibc.Memset.Step.{filled, IsFilled, set_byte-IsFilled, set_word-IsFilled}

-- The number of bytes before the first word-aligned address.
abbrev pub head : ℕ → ℕ
head a = (4 - a % 4) % 4

is_word_aligned_iff : (a : ℕ) → (is_word_aligned a ≡ true) ↔ (a % 4 ≡ 0)
unfolding is_word_aligned
is_word_aligned_iff a = ground (arith, bit_and-mask 2 a)

not_aligned : (a : ℕ) → is_word_aligned a ≡ false → a % 4 ≢ 0
unfolding is_word_aligned
not_aligned a h = ground (arith, bit_and-mask 2 a)

module _ (m : Memory) (d c : ℕ) (byte : c < 256) where
  set_bytes-IsFilled :
      (k n : ℕ) (f : Filler) → IsFilled m d c n f → IsFilled m d c (n + k) (times (set_byte c) k f)
  set_bytes-IsFilled zero n f i = rw add-zero i
  set_bytes-IsFilled (suc k) n f i =
      let e : n + suc k ≡ n + 1 + k = omega arith in
      rw e (set_bytes-IsFilled k (n + 1) (set_byte c f) (set_byte-IsFilled m d c byte n f i))

  set_words-IsFilled :
      (k n : ℕ) (f : Filler)
      → IsFilled m d c n f
      → IsFilled m d c (n + 4 * k) (times (set_word (word_of c)) k f)
  set_words-IsFilled zero n f i = rw add-zero i
  set_words-IsFilled (suc k) n f i =
      let e : n + 4 * suc k ≡ n + 4 + 4 * k = omega arith in
      rw e
        (set_words-IsFilled k (n + 4) (set_word (word_of c) f) (set_word-IsFilled m d c byte n f i))

  unaligned-IsFilled :
      (k n : ℕ) (f : Filler)
      → 0 < k
      → k < 2 ^ 31
      → IsFilled m d c n f
      → IsFilled m d c (n + k) (memset_unaligned_fast c k f)
  unfolding memset_unaligned_fast
  unaligned-IsFilled k n f pos small i =
      rw (duff-eq-times (set_byte c) k (u32 (k + 7) / 8) f pos (omega arith))
        (set_bytes-IsFilled k n f i)

  -- Whole words, then the remaining bytes.
  aligned_after_words :
      (k w : ℕ) (f : Filler)
      → k < 2 ^ 31
      → IsFilled m d c w (duff (set_word (word_of c)) (k / 4) ((k / 4 + 7) / 8) f)
      → IsFilled m d c (w + k % 4) (memset_aligned_fast c k f)
  unfolding memset_aligned_fast
  aligned_after_words k w f small words = elim (Bool-cases (k % 4 == 0)) [
    | inl e ↦ let none_left : w + k % 4 ≡ w = ground arith in rw (e, none_left) words
    | inr e ↦ rw e (
        unaligned-IsFilled (k % 4) w (duff (set_word (word_of c)) (k / 4) ((k / 4 + 7) / 8) f)
          (ground arith) (omega arith) words)
  ]

  aligned-IsFilled :
      (k n : ℕ) (f : Filler)
      → 4 ≤ k
      → k < 2 ^ 31
      → IsFilled m d c n f
      → IsFilled m d c (n + k) (memset_aligned_fast c k f)
  aligned-IsFilled k n f four small i =
      let words : IsFilled m d c (n + 4 * (k / 4))
          (duff (set_word (word_of c)) (k / 4) ((k / 4 + 7) / 8) f) =
        rw (duff-eq-times (set_word (word_of c)) (k / 4) ((k / 4 + 7) / 8) f (omega arith) refl)
          (set_words-IsFilled (k / 4) n f i) in
      let whole : n + 4 * (k / 4) + k % 4 ≡ n + k = omega arith in
      rw whole at (aligned_after_words k (n + 4 * (k / 4)) f small words)

  -- With no whole word the switch still enters the first round, and eight words are filled.
  eight_words-IsFilled :
      (k n : ℕ) (f : Filler)
      → k < 4
      → IsFilled m d c n f
      → IsFilled m d c (n + 32 + k) (memset_aligned_fast c k f)
  unfolding duff more_rounds
  eight_words-IsFilled k n f few i =
      let none_whole : k / 4 ≡ 0 = omega arith in
      let words : IsFilled m d c (n + 4 * 8)
          (duff (set_word (word_of c)) (k / 4) ((k / 4 + 7) / 8) f) =
        rw none_whole (set_words-IsFilled 8 n f i) in
      let rest : k % 4 ≡ k = omega arith in
      rw rest at (aligned_after_words k (n + 32) f (omega arith) words)

  -- `r` bytes are left: they end in the head, or the head leaves a whole word.
  from-IsFilled :
      (r n : ℕ) (f : Filler)
      → (r ≤ head f.dest) ⊎ (head f.dest + 4 ≤ r)
      → r < 2 ^ 31
      → IsFilled m d c n f
      → IsFilled m d c (n + r) (memset_from c r f)
  unfolding memset_from
  from-IsFilled zero n f h small i = rw add-zero i
  from-IsFilled (suc r) n f h small i = elim (Bool-cases (is_word_aligned f.dest)) [
    | inl e ↦
        rw e
          (aligned-IsFilled (suc r) n f (omega (arith, (is_word_aligned_iff f.dest).0 e)) small i)
    | inr e ↦
        let off : f.dest % 4 ≢ 0 = λ z. absurd (not_aligned f.dest e z) in
        let next : n + suc r ≡ n + 1 + r = omega arith in
        rw (e, next)
          (from-IsFilled r (n + 1) (set_byte c f) (unfold set_byte in omega arith) (omega arith)
            (set_byte-IsFilled m d c byte n f i))
  ]

  -- The bytes that are left end inside the first word.
  from-overruns :
      (r n : ℕ) (f : Filler)
      → head f.dest < r
      → r < head f.dest + 4
      → IsFilled m d c n f
      → IsFilled m d c (n + 32 + r) (memset_from c r f)
  unfolding memset_from
  from-overruns zero n f h h' i = absurd (omega arith)
  from-overruns (suc r) n f h h' i = elim (Bool-cases (is_word_aligned f.dest)) [
    | inl e ↦
        rw e (eight_words-IsFilled (suc r) n f (omega (arith, (is_word_aligned_iff f.dest).0 e)) i)
    | inr e ↦
        let off : f.dest % 4 ≢ 0 = λ z. absurd (not_aligned f.dest e z) in
        let next : n + 32 + suc r ≡ n + 1 + 32 + r = omega arith in
        rw (e, next)
          (from-overruns r (n + 1) (set_byte c f) (unfold set_byte in omega arith)
            (unfold set_byte in omega arith) (set_byte-IsFilled m d c byte n f i))
  ]

start-IsFilled : (m : Memory) (d c : ℕ) → IsFilled m d c 0 (record { dest = d; mem = m })
start-IsFilled m d c = record { dest_at = omega arith; bytes = λ a. ground arith }

-- `memset` puts the low byte of `c` into the `n` bytes (n < 2^31) from `dest` on and changes no
-- other byte, if the bytes end before the first word-aligned address or reach at least four bytes
-- beyond it.
pub memset_fills :
    (dest c n : ℕ) (m : Memory)
    → n < 2 ^ 31
    → (n ≤ head dest) ⊎ (head dest + 4 ≤ n)
    → (a : ℕ) → memset dest c n m a ≡ filled m dest (c % 256) n a
unfolding memset
memset_fills dest c n m small room a = ground (
  arith,
  bit_and-mask 8 c,
  (from-IsFilled m dest (c % 256) (omega arith) n 0 (record { dest = dest; mem = m }) room small
        (start-IsFilled m dest (c % 256))).bytes
      a,
)

-- If the `n` bytes end one to three bytes beyond the first word-aligned address, `memset` fills 32
-- bytes more than were asked for: `switch (0)` enters the unrolled loop at its top.
pub memset_overruns :
    (dest c n : ℕ) (m : Memory)
    → head dest < n
    → n < head dest + 4
    → (a : ℕ) → memset dest c n m a ≡ filled m dest (c % 256) (32 + n) a
unfolding memset
memset_overruns dest c n m beyond few a = ground (
  arith,
  bit_and-mask 8 c,
  (from-overruns m dest (c % 256) (omega arith) n 0 (record { dest = dest; mem = m }) beyond few
        (start-IsFilled m dest (c % 256))).bytes
      a,
)
