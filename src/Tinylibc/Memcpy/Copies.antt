-- ===== src/Tinylibc/Memcpy/Copies.antt =====
-- memcpy against a plain copy of the buffer.
use rflpc.Base.{
  ℕ, zero, suc, ◌+◌, ◌*◌, ◌/◌, ◌%◌, ◌^◌, ◌≤◌, ◌<◌, ◌==◌, ◌&&◌, true, false, ◌≡◌, refl, ◌⊎◌, inl,
  inr, Bool-cases, arith,
}
use native.Mathlib.Nat.{add-zero}
use rflpc.Base.Word.{u32}
use rflpc.Base.Memory.{Memory}
use rflpc.Tinylibc.Duff.{times, more_rounds, duff, duff-eq-times}
use rflpc.Tinylibc.Memcpy.{
  Cursor, copy_byte, copy_word, memcpy_unaligned_fast, memcpy_aligned_fast, memcpy, is_word_aligned,
}
use rflpc.Tinylibc.Memcpy.Step.{
  copied, AreDisjoint, IsCopied, copy_byte-IsCopied, copy_word-IsCopied,
}

module _ (m : Memory) (d s total : ℕ) (apart : AreDisjoint d s total) where
  copy_bytes-IsCopied :
      (k n : ℕ) (c : Cursor)
      → n + k ≤ total
      → IsCopied m d s n c
      → IsCopied m d s (n + k) (times copy_byte k c)
  copy_bytes-IsCopied zero n c h i = rw add-zero i
  copy_bytes-IsCopied (suc k) n c h i =
      let e : n + suc k ≡ n + 1 + k = omega arith in
      rw e (
        copy_bytes-IsCopied k (n + 1) (copy_byte c) (omega arith)
          (copy_byte-IsCopied m d s total apart n c (omega arith) i))

  copy_words-IsCopied :
      (k n : ℕ) (c : Cursor)
      → n + 4 * k ≤ total
      → IsCopied m d s n c
      → IsCopied m d s (n + 4 * k) (times copy_word k c)
  copy_words-IsCopied zero n c h i = rw add-zero i
  copy_words-IsCopied (suc k) n c h i =
      let e : n + 4 * suc k ≡ n + 4 + 4 * k = omega arith in
      rw e (
        copy_words-IsCopied k (n + 4) (copy_word c) (omega arith)
          (copy_word-IsCopied m d s total apart n c (omega arith) i))

  unaligned-IsCopied :
      (k n : ℕ) (c : Cursor)
      → 0 < k
      → k < 2 ^ 31
      → n + k ≤ total
      → IsCopied m d s n c
      → IsCopied m d s (n + k) (memcpy_unaligned_fast k c)
  unfolding memcpy_unaligned_fast
  unaligned-IsCopied k n c pos small h i =
      rw (duff-eq-times copy_byte k (u32 (k + 7) / 8) c pos (omega arith))
        (copy_bytes-IsCopied k n c h i)

  -- Whole words, then the remaining bytes; `w` words are copied.
  aligned_after_words :
      (k w : ℕ) (c : Cursor)
      → k < 2 ^ 31
      → w + k % 4 ≤ total
      → IsCopied m d s w (duff copy_word (k / 4) ((k / 4 + 7) / 8) c)
      → IsCopied m d s (w + k % 4) (memcpy_aligned_fast k c)
  unfolding memcpy_aligned_fast
  aligned_after_words k w c small h words = elim (Bool-cases (k % 4 == 0)) [
    | inl e ↦ let none_left : w + k % 4 ≡ w = ground arith in rw (e, none_left) words
    | inr e ↦ rw e (
        unaligned-IsCopied (k % 4) w (duff copy_word (k / 4) ((k / 4 + 7) / 8) c) (ground arith)
          (omega arith) h words)
  ]

  aligned-IsCopied :
      (k : ℕ) (c : Cursor)
      → 4 ≤ k
      → k < 2 ^ 31
      → k ≤ total
      → IsCopied m d s 0 c
      → IsCopied m d s k (memcpy_aligned_fast k c)
  aligned-IsCopied k c four small h i =
      let words : IsCopied m d s (0 + 4 * (k / 4)) (duff copy_word (k / 4) ((k / 4 + 7) / 8) c) =
        rw (duff-eq-times copy_word (k / 4) ((k / 4 + 7) / 8) c (omega arith) refl)
          (copy_words-IsCopied (k / 4) 0 c (omega arith) i) in
      let whole : 0 + 4 * (k / 4) + k % 4 ≡ k = omega arith in
      rw whole at (aligned_after_words k (0 + 4 * (k / 4)) c small (omega arith) words)

  -- With no whole word the switch still enters the first round, and eight words are copied.
  eight_words-IsCopied :
      (k : ℕ) (c : Cursor)
      → k < 4
      → 32 + k ≤ total
      → IsCopied m d s 0 c
      → IsCopied m d s (32 + k) (memcpy_aligned_fast k c)
  unfolding duff more_rounds
  eight_words-IsCopied k c few h i =
      let none_whole : k / 4 ≡ 0 = omega arith in
      let words : IsCopied m d s (0 + 4 * 8) (duff copy_word (k / 4) ((k / 4 + 7) / 8) c) =
        rw none_whole (copy_words-IsCopied 8 0 c (omega arith) i) in
      let rest : k % 4 ≡ k = omega arith in
      rw rest at (aligned_after_words k 32 c (omega arith) (omega arith) words)

-- `memcpy` copies its `n` bytes (n < 2^31) and changes no other byte, for buffers that do not
-- overlap, if at least four bytes are copied or one of the two pointers is not word aligned.
pub memcpy_copies :
    (dest src n : ℕ) (m : Memory)
    → n < 2 ^ 31
    → AreDisjoint dest src n
    → (4 ≤ n) ⊎ ((is_word_aligned dest && is_word_aligned src) ≡ false)
    → (a : ℕ) → memcpy dest src n m a ≡ copied m dest src n a
unfolding memcpy
memcpy_copies dest src n m small apart long a =
    let c : Cursor = record { dest = dest; src = src; mem = m } in
    let start : IsCopied m dest src 0 c = record {
      dest_at = omega arith;
      src_at = omega arith;
      bytes = λ b. ground arith;
    } in
    ground (
      arith,
      λ (p : 0 < n).
          (unaligned-IsCopied m dest src n apart n 0 c p small (omega arith) start).bytes a,
      λ (p : 4 ≤ n). (aligned-IsCopied m dest src n apart n c p small (omega arith) start).bytes a,
    )

-- A copy of one to three bytes between word-aligned buffers that do not overlap copies 32 bytes
-- more than were asked for: `n / 4` is 0, and `switch (0)` enters the unrolled loop at its top.
pub memcpy_overruns :
    (dest src n : ℕ) (m : Memory)
    → 0 < n
    → n < 4
    → AreDisjoint dest src (32 + n)
    → (is_word_aligned dest && is_word_aligned src) ≡ true
    → (a : ℕ) → memcpy dest src n m a ≡ copied m dest src (32 + n) a
unfolding memcpy
memcpy_overruns dest src n m pos few apart aligned a =
    let c : Cursor = record { dest = dest; src = src; mem = m } in
    let start : IsCopied m dest src 0 c = record {
      dest_at = omega arith;
      src_at = omega arith;
      bytes = λ b. ground arith;
    } in
    ground
      (arith, (eight_words-IsCopied m dest src (32 + n) apart n c few (omega arith) start).bytes a)
