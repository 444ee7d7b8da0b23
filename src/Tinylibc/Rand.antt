-- ===== src/Tinylibc/Rand.antt =====
-- rflpc17xx/tinylibc/rand.c. `unsigned int` has 32 bits.
use rflpc.Base.{
  ℕ, zero, suc, List, [], ◌∷◌, ◌+◌, ◌*◌, ◌/◌, ◌%◌, ◌^◌, ◌<◌, ◌-◌, bit_xor, ◌≡◌, ◌≢◌, ap, sym, ◌∙◌,
  arith,
}
use rflpc.Base.Bits.{bit_xor-add}
use rflpc.Base.Word.{u32, shl}

-- `next *= 1103515245; next += 12345;`
unfoldable pub advance : ℕ → ℕ
advance next = u32 (u32 (next * 1103515245) + 12345)

-- `rand_r (&seed)`: the result and the new seed.
unfoldable pub rand_r : ℕ → ℕ × ℕ
rand_r seed =
    let first = advance seed in
    let second = advance first in
    let third = advance second in
    let result0 = first / 65536 % 2048 in
    let result1 = bit_xor (shl result0 10) (second / 65536 % 1024) in
    let result2 = bit_xor (shl result1 10) (third / 65536 % 1024) in (result2, third)

-- The result is eleven bits of the first new seed and ten of each of the next two side by side, so it
-- is below 2^31 and never negative as an `int`; and the new seed is a 32-bit number.
pub rand_r_range :
    (seed : ℕ)
    → let (r, next) = rand_r seed in
      (r < 2 ^ 31)
      × (next < 2 ^ 32)
      × (r / 2 ^ 20 ≡ advance seed / 65536 % 2048)
      × (r / 2 ^ 10 % 2 ^ 10 ≡ advance (advance seed) / 65536 % 1024)
      × (r % 2 ^ 10 ≡ next / 65536 % 1024)
unfolding rand_r advance
rand_r_range seed =
    let first = advance seed in
    let second = advance first in
    let third = advance second in
    let result0 = first / 65536 % 2048 in
    let mid = second / 65536 % 1024 in
    omega (
      arith,
      bit_xor-add 10 result0 mid (omega arith),
      bit_xor-add 10 (bit_xor (shl result0 10) mid) (third / 65536 % 1024) (omega arith),
    )

-- One step back: 1103515245 times its inverse is 1 mod 2^32.
retreat : ℕ → ℕ
retreat s = u32 (u32 (s + 2 ^ 32 - 12345) * 4005161829)

retreat-advance : (s : ℕ) → s < 2 ^ 32 → retreat (advance s) ≡ s
unfolding retreat advance
retreat-advance s h = omega arith

advance-lt : (s : ℕ) → advance s < 2 ^ 32
unfolding advance
advance-lt s = omega arith

seed_back : (s t : ℕ) → s < 2 ^ 32 → t < 2 ^ 32 → (rand_r s).1 ≡ (rand_r t).1 → s ≡ t
unfolding rand_r
seed_back s t hs ht e =
    let back2 = λ (a b : ℕ) (ha : a < 2 ^ 32) (hb : b < 2 ^ 32) (h : advance a ≡ advance b).
      sym (retreat-advance a ha) ∙ ap retreat h ∙ retreat-advance b hb in
    back2 s t hs ht (
      back2 (advance s) (advance t) (advance-lt s) (advance-lt t) (
        back2 (advance (advance s)) (advance (advance t)) (advance-lt (advance s))
          (advance-lt (advance t)) e))

-- Two different 32-bit seeds never lead to the same next seed.
pub rand_r_injective : (s t : ℕ) → s < 2 ^ 32 → t < 2 ^ 32 → s ≢ t → (rand_r s).1 ≢ (rand_r t).1
rand_r_injective s t hs ht differ e = differ (seed_back s t hs ht e)

-- `_seed`, `srand` and `rand`: the static seed is set, and replaced by each call.
unfoldable pub srand : ℕ → ℕ → ℕ
srand seed old = u32 seed

unfoldable pub rand : ℕ → ℕ × ℕ
rand seed = rand_r seed

-- The results of `k` calls of `rand`.
unfoldable pub rands : ℕ → ℕ → List ℕ
rands zero seed = []
rands (suc k) seed = let (r, next) = rand seed in r ∷ rands k next
