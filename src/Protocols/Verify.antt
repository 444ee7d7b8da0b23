-- ===== src/Protocols/Verify.antt =====
-- proto_checksum is the complement of the one's complement sum, and a header with its checksum verifies.
use rflpc.Base.{
  ℕ, zero, suc, ◌+◌, ◌*◌, ◌/◌, ◌%◌, ◌^◌, ◌-◌, ◌<◌, ◌≤◌, ◌≡◌, refl, ap, ◌∙◌, ◌⊎◌, bit_and, bit_or,
  some, arith,
}
use rflpc.Base.Bits.{bit_and-mask, bit_or-add}
use rflpc.Base.Word.{u32, shr, not32}
use rflpc.Base.Memory.{Memory}
use rflpc.Protocols.Checksum.{ntohs, load16, add_words, add_carries, inverted, proto_checksum}
use rflpc.Protocols.Carries.{bit_or_comm, IsFolded, add_carries-IsFolded}

-- The word at an address in the order of the network.
ntohs-load16 :
    (m : Memory) (a : ℕ) → m a < 256 → m (a + 1) < 256 → ntohs (load16 m a) ≡ m a * 256 + m (a + 1)
unfolding ntohs load16
ntohs-load16 m a h0 h1 =
    let v = m a + m (a + 1) * 256 in
    let upper : bit_and (shr v 8) 0xff ≡ m (a + 1) = omega (arith, bit_and-mask 8 (shr v 8)) in
    let lower : bit_and v 0xff ≡ m a = omega (arith, bit_and-mask 8 v) in
    let swapped : bit_or (m (a + 1)) (m a * 2 ^ 8) ≡ m a * 256 + m (a + 1) =
      bit_or_comm 16 (m (a + 1)) (m a * 2 ^ 8) (omega arith) (omega arith)
      ∙ bit_or-add 8 (m a) (m (a + 1)) h1 in
    rw (upper, lower) swapped

-- The sum of the 16-bit words of a buffer in the order of the network, an odd last byte being the upper
-- half of a word.
abbrev pub word_sum : ℕ → Memory → ℕ → ℕ
word_sum zero m a = 0
word_sum (suc zero) m a = m a * 256
word_sum (suc (suc n)) m a = m a * 256 + m (a + 1) + word_sum n m (a + 2)

word_sum-le : (n : ℕ) (m : Memory) (a : ℕ) → ((b : ℕ) → m b < 256) → word_sum n m a ≤ 65535 * n
word_sum-le zero m a h = omega arith
word_sum-le (suc zero) m a h = omega (arith, h a)
word_sum-le (suc (suc n)) m a h = omega (arith, h a, h (a + 1), word_sum-le n m (a + 2) h)

add_words-eq :
    (n : ℕ) (m : Memory) (a c : ℕ)
    → ((b : ℕ) → m b < 256)
    → c + 65535 * n < 2 ^ 32
    → add_words n m a c ≡ c + word_sum n m a
unfolding add_words
add_words-eq zero m a c h small = omega arith
add_words-eq (suc zero) m a c h small = omega (arith, h a)
add_words-eq (suc (suc n)) m a c h small =
    let word = ntohs-load16 m a (h a) (h (a + 1)) in
    let next : u32 (c + ntohs (load16 m a)) ≡ c + (m a * 256 + m (a + 1)) =
      omega (arith, word, h a, h (a + 1)) in
    rw next (
      omega (
        arith,
        add_words-eq n m (a + 2) (c + (m a * 256 + m (a + 1))) h (omega (arith, h a, h (a + 1))),
      ))

-- For every buffer of fewer than 65536 bytes `proto_checksum` comes to an end, and what it returns is
-- the complement of the one's complement sum of the buffer's 16-bit words in the order of the network,
-- an odd last byte being the upper half of a word.
pub proto_checksum_lem :
    (m : Memory) (buffer n : ℕ)
    → ((b : ℕ) → m b < 256)
    → n < 2 ^ 16
    → (r : ℕ) × (proto_checksum m buffer n ≡ some (65535 - r)) × IsFolded (word_sum n m buffer) r
unfolding proto_checksum
proto_checksum_lem m buffer n bytes small =
    let sum : add_words n m buffer 0 ≡ word_sum n m buffer =
      omega (arith, add_words-eq n m buffer 0 bytes (omega arith)) in
    let (r, e, f) =
      add_carries-IsFolded (word_sum n m buffer) (omega (arith, word_sum-le n m buffer bytes)) in
    let mask : bit_and (not32 r) 0xffff ≡ 65535 - r =
      omega (arith, bit_and-mask 16 (not32 r), f.word) in
    (r, ap (λ c. inverted (add_carries 3 c)) sum ∙ ap inverted e ∙ ap some mask, f)

word_sum_agrees :
    (n : ℕ) (m m' : Memory) (a : ℕ)
    → ((b : ℕ) → a ≤ b → m' b ≡ m b)
    → word_sum n m' a ≡ word_sum n m a
word_sum_agrees zero m m' a h = refl
word_sum_agrees (suc zero) m m' a h = omega (arith, h a (omega arith))
word_sum_agrees (suc (suc n)) m m' a h = omega (
  arith,
  h a (omega arith),
  h (a + 1) (omega arith),
  word_sum_agrees n m m' (a + 2) (λ b p. h b (omega arith)),
)

-- The word number `k`, at `p`, was 0 and is `s`.
word_sum_put :
    (k n : ℕ) (m m' : Memory) (a p s : ℕ)
    → p ≡ a + 2 * k
    → 2 * k + 1 < n
    → (m p ≡ 0) × (m (p + 1) ≡ 0)
    → (m' p ≡ s / 256) × (m' (p + 1) ≡ s % 256)
    → ((b : ℕ) → (b < p) ⊎ (p + 2 ≤ b) → m' b ≡ m b)
    → word_sum n m' a ≡ word_sum n m a + s
word_sum_put k zero m m' a p s e h z w same = absurd (omega arith)
word_sum_put k (suc zero) m m' a p s e h z w same = absurd (omega arith)
word_sum_put zero (suc (suc n)) m m' a p s e h z w same =
    let here : a ≡ p = omega arith in
    let rest = word_sum_agrees n m m' (a + 2) (λ b q. same b (omega arith)) in
    omega (
      arith,
      rest,
      z,
      w,
      ap m here,
      ap m' here,
      ap (λ (x : ℕ). m (x + 1)) here,
      ap (λ (x : ℕ). m' (x + 1)) here,
    )
word_sum_put (suc k) (suc (suc n)) m m' a p s e h z w same = omega (
  arith,
  same a (omega arith),
  same (a + 1) (omega arith),
  word_sum_put k n m m' (a + 2) p s (omega arith) (omega arith) z w same,
)

-- A buffer that holds the checksum computed while its place, the word number `k`, was 0 has the checksum 0.
pub proto_checksum_verifies :
    (m m' : Memory) (buffer n k s : ℕ)
    → ((b : ℕ) → m b < 256)
    → ((b : ℕ) → m' b < 256)
    → n < 2 ^ 16
    → 2 * k + 1 < n
    → (m (buffer + 2 * k) ≡ 0) × (m (buffer + 2 * k + 1) ≡ 0)
    → proto_checksum m buffer n ≡ some s
    → (m' (buffer + 2 * k) ≡ s / 256) × (m' (buffer + 2 * k + 1) ≡ s % 256)
    → ((b : ℕ) → (b < buffer + 2 * k) ⊎ (buffer + 2 * k + 2 ≤ b) → m' b ≡ m b)
    → proto_checksum m' buffer n ≡ some 0
proto_checksum_verifies m m' buffer n k s bytes bytes' small inside z computed w same =
    let (r, e, f) = proto_checksum_lem m buffer n bytes small in
    let (r', e', f') = proto_checksum_lem m' buffer n bytes' small in
    let is_s : s ≡ 65535 - r = cc in
    let sums = word_sum_put k n m m' buffer (buffer + 2 * k) s refl inside z w same in
    let all_ones : r' ≡ 65535 =
      ground (arith, f.word, f.rest, f.positive, f'.word, f'.rest, f'.positive, sums, is_s) in
    e' ∙ ap some (omega (arith, all_ones))
