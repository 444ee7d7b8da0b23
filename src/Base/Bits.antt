-- ===== src/Base/Bits.antt =====
-- Single bits of native numbers: what `&`, `|`, `~`, `<<` and `>>` do to the bit `k`.
use Prim.Native.Nat.{ℕ, zero, suc, ◌+◌, ◌-◌, ◌*◌, ◌/◌, ◌%◌, ◌^◌, ◌≤◌, ◌<◌, min, max}
use Prim.Native.Nat.{bit_and, bit_or, digits, bit_and-bitwise, bit_or-bitwise}
use Prim.Native.Nat.{bit_xor, bit_xor-bitwise, differ}
use mathlib.Core.Path.{◌≡◌, refl, ◌∙◌, ap, ap₂}
use native.Mathlib.Nat.{pow-suc, one-le-pow}
use native.Mathlib.Omega.{arith}

-- The bit `k` of `x`, 0 or 1.
abbrev pub bit_at : ℕ → ℕ → ℕ
bit_at x zero = x % 2
bit_at x (suc k) = bit_at (x / 2) k

pub bit_at_zero : (k : ℕ) → bit_at 0 k ≡ 0
bit_at_zero zero = refl
bit_at_zero (suc k) = bit_at_zero k

pub bit_at-lt : (x k : ℕ) → bit_at x k < 2
bit_at-lt x zero = omega arith
bit_at-lt x (suc k) = bit_at-lt (x / 2) k

-- The native operations stand for a recursion on the digits of the first number. Each bit of the
-- result comes from the two bits at its place.
module _ (tail : ℕ → ℕ) (op : ℕ → ℕ → ℕ)
    (tail_bit : (b k : ℕ) → bit_at (tail b) k ≡ op 0 (bit_at b k))
    (op_bit : (a b : ℕ) → op (a % 2) (b % 2) < 2) where
  bit_at-digits :
      (n a b k : ℕ) → a ≤ n → bit_at (digits tail op n a b) k ≡ op (bit_at a k) (bit_at b k)
  bit_at-digits zero zero b k h =
      tail_bit b k ∙ ap (λ z. op z (bit_at b k)) (omega (arith, bit_at_zero k))
  bit_at-digits zero (suc a) b k h = absurd (omega arith)
  bit_at-digits (suc n) zero b k h =
      tail_bit b k ∙ ap (λ z. op z (bit_at b k)) (omega (arith, bit_at_zero k))
  bit_at-digits (suc n) (suc a) b zero h = omega (arith, op_bit (suc a) b)
  bit_at-digits (suc n) (suc a) b (suc k) h =
      ap (λ x. bit_at x k) (omega (arith, op_bit (suc a) b))
      ∙ bit_at-digits n (suc a / 2) (b / 2) k (omega arith)

  -- The result has no more bits than the two numbers.
  digits-lt :
      ((b : ℕ) → tail b ≤ b)
      → (w n a b : ℕ) → a ≤ n
      → a < 2 ^ w
      → b < 2 ^ w
      → digits tail op n a b < 2 ^ w
  digits-lt le w zero a b h ha hb = omega (arith, le b)
  digits-lt le w (suc n) zero b h ha hb = omega (arith, le b)
  digits-lt le zero (suc n) (suc a) b h ha hb = absurd (omega arith)
  digits-lt le (suc w) (suc n) (suc a) b h ha hb = omega (
    arith,
    pow-suc 2 w,
    op_bit (suc a) b,
    digits-lt le w n (suc a / 2) (b / 2) (omega arith) (omega (arith, pow-suc 2 w))
        (omega (arith, pow-suc 2 w)),
  )

pub bit_or-lt : (w a b : ℕ) → a < 2 ^ w → b < 2 ^ w → bit_or a b < 2 ^ w
bit_or-lt w a b ha hb = omega (
  arith,
  bit_or-bitwise a b,
  digits-lt (λ y. y) max (λ c j. omega arith) (λ c d. omega arith) (λ c. omega arith) w a a b
      (omega arith) ha hb,
)

and_digits-le : (n a b : ℕ) → digits (λ y. 0) min n a b ≤ b
and_digits-le zero a b = omega arith
and_digits-le (suc n) zero b = omega arith
and_digits-le (suc n) (suc a) b = omega (arith, and_digits-le n (suc a / 2) (b / 2))

pub bit_and-le : (a b : ℕ) → bit_and a b ≤ b
bit_and-le a b = omega (arith, bit_and-bitwise a b, and_digits-le a a b)

and_digits-lt : (w n a b : ℕ) → a ≤ n → a < 2 ^ w → digits (λ y. 0) min n a b < 2 ^ w
and_digits-lt w zero a b h ha = omega arith
and_digits-lt w (suc n) zero b h ha = omega arith
and_digits-lt zero (suc n) (suc a) b h ha = absurd (omega arith)
and_digits-lt (suc w) (suc n) (suc a) b h ha = omega (
  arith,
  pow-suc 2 w,
  and_digits-lt w n (suc a / 2) (b / 2) (omega arith) (omega (arith, pow-suc 2 w)),
)

pub bit_and-lt : (w a b : ℕ) → a < 2 ^ w → bit_and a b < 2 ^ w
bit_and-lt w a b h = omega (arith, bit_and-bitwise a b, and_digits-lt w a a b (omega arith) h)

pub bit_at-bit_and : (a b k : ℕ) → bit_at (bit_and a b) k ≡ min (bit_at a k) (bit_at b k)
bit_at-bit_and a b k =
    ap (λ x. bit_at x k) (bit_and-bitwise a b)
    ∙ bit_at-digits (λ y. 0) min (λ c j. omega (arith, bit_at_zero j)) (λ c d. omega arith) a a b k
        (omega arith)

pub bit_at-bit_or : (a b k : ℕ) → bit_at (bit_or a b) k ≡ max (bit_at a k) (bit_at b k)
bit_at-bit_or a b k =
    ap (λ x. bit_at x k) (bit_or-bitwise a b)
    ∙ bit_at-digits (λ y. y) max (λ c j. omega arith) (λ c d. omega arith) a a b k (omega arith)

-- `v << s`: the bits below `s` are clear, the others move up.
pub bit_at-shl_low : (s v k : ℕ) → k < s → bit_at (v * 2 ^ s) k ≡ 0
bit_at-shl_low zero v k h = absurd (omega arith)
bit_at-shl_low (suc s) v zero h = omega (arith, ap (λ (t : ℕ). v * t) (pow-suc 2 s))
bit_at-shl_low (suc s) v (suc k) h =
    ap (λ x. bit_at x k) (omega (arith, ap (λ (t : ℕ). v * t) (pow-suc 2 s)))
    ∙ bit_at-shl_low s v k (omega arith)

pub bit_at-shl : (s v j k : ℕ) → k ≡ s + j → bit_at (v * 2 ^ s) k ≡ bit_at v j
bit_at-shl zero v j k e =
    let moved : v * 2 ^ zero ≡ v = omega arith in
    let same : k ≡ j = omega arith in ap₂ bit_at moved same
bit_at-shl (suc s) v j zero e = absurd (omega arith)
bit_at-shl (suc s) v j (suc k) e =
    ap (λ x. bit_at x k) (omega (arith, ap (λ (t : ℕ). v * t) (pow-suc 2 s)))
    ∙ bit_at-shl s v j k (omega arith)

-- `~y` in `w` bits.
pub bit_at-complement : (w y k : ℕ) → y < 2 ^ w → k < w → bit_at (2 ^ w - 1 - y) k ≡ 1 - bit_at y k
bit_at-complement zero y k hy hk = absurd (omega arith)
bit_at-complement (suc w) y zero hy hk = omega (arith, pow-suc 2 w)
bit_at-complement (suc w) y (suc k) hy hk =
    ap (λ x. bit_at x k) (omega (arith, pow-suc 2 w))
    ∙ bit_at-complement w (y / 2) k (omega (arith, pow-suc 2 w)) (omega arith)

-- A number of `w` bits has no bit from `w` on.
pub bit_at_above : (w x k : ℕ) → x < 2 ^ w → w ≤ k → bit_at x k ≡ 0
bit_at_above zero x k hx hk = ap (λ y. bit_at y k) (omega arith) ∙ bit_at_zero k
bit_at_above (suc w) x zero hx hk = absurd (omega arith)
bit_at_above (suc w) x (suc k) hx hk =
    bit_at_above w (x / 2) k (omega (arith, pow-suc 2 w)) (omega arith)

-- Two numbers of `w` bits with the same bits are equal.
pub eq_of_bits :
    (w x y : ℕ) → x < 2 ^ w → y < 2 ^ w → ((k : ℕ) → k < w → bit_at x k ≡ bit_at y k) → x ≡ y
eq_of_bits zero x y hx hy h = omega arith
eq_of_bits (suc w) x y hx hy h = omega (
  arith,
  h 0 (omega arith),
  eq_of_bits w (x / 2) (y / 2) (omega (arith, pow-suc 2 w)) (omega (arith, pow-suc 2 w))
      (λ k hk. h (suc k) (omega arith)),
)

mod_double : (a m : ℕ) → 0 < m → a % (m * 2) ≡ a / 2 % m * 2 + a % 2
mod_double a m h = grind arith

and_digits-mask : (w n a m : ℕ) → m ≡ 2 ^ w - 1 → a ≤ n → digits (λ y. 0) min n a m ≡ a % 2 ^ w
and_digits-mask w zero a m e h = omega arith
and_digits-mask w (suc n) zero m e h = omega arith
and_digits-mask zero (suc n) (suc a) m e h =
    omega (arith, and_digits-mask zero n (suc a / 2) (m / 2) (omega arith) (omega arith))
and_digits-mask (suc w) (suc n) (suc a) m e h =
    let half : m / 2 ≡ 2 ^ w - 1 = omega (arith, pow-suc 2 w, one-le-pow w 2) in
    let odd : m % 2 ≡ 1 = omega (arith, pow-suc 2 w, one-le-pow w 2) in
    let split : suc a % 2 ^ suc w ≡ suc a / 2 % 2 ^ w * 2 + suc a % 2 =
      rw (pow-suc 2 w) (mod_double (suc a) (2 ^ w) (one-le-pow w 2 (omega arith))) in
    omega (arith, and_digits-mask w n (suc a / 2) (m / 2) half (omega arith))

-- `x & (2^w - 1)` is the remainder by `2^w`.
pub bit_and-mask : (w a : ℕ) → bit_and a (2 ^ w - 1) ≡ a % 2 ^ w
bit_and-mask w a =
    omega
      (arith, bit_and-bitwise a (2 ^ w - 1), and_digits-mask w a a (2 ^ w - 1) refl (omega arith))

-- Numbers without a common digit: `|` and `^` are both sums there.
module _ (op : ℕ → ℕ → ℕ) (left : (y : ℕ) → op 0 (y % 2) ≡ y % 2)
    (right : (x : ℕ) → op (x % 2) 0 ≡ x % 2) where
  digits-zero : (n a : ℕ) → a ≤ n → digits (λ y. y) op n a 0 ≡ a
  digits-zero zero a h = omega arith
  digits-zero (suc n) zero h = refl
  digits-zero (suc n) (suc a) h =
      omega (arith, right (suc a), digits-zero n (suc a / 2) (omega arith))

  digits-add :
      (s n a q v : ℕ) → a ≡ q * 2 ^ s → a ≤ n → v < 2 ^ s → digits (λ y. y) op n a v ≡ a + v
  digits-add s zero a q v e h hv = omega arith
  digits-add s (suc n) zero q v e h hv = omega arith
  digits-add zero (suc n) (suc a) q zero e h hv = omega (arith, digits-zero (suc n) (suc a) h)
  digits-add zero (suc n) (suc a) q (suc v) e h hv = absurd (omega arith)
  digits-add (suc s) (suc n) (suc a) q v e h hv =
      let even : suc a ≡ q * 2 ^ s * 2 = omega (arith, ap (λ (t : ℕ). q * t) (pow-suc 2 s)) in
      let low : op (suc a % 2) (v % 2) ≡ v % 2 =
        ap (λ t. op t (v % 2)) (let z : suc a % 2 ≡ 0 = omega arith in z) ∙ left v in
      omega (
        arith,
        low,
        digits-add s n (suc a / 2) q (v / 2) (omega arith) (omega arith)
            (omega (arith, pow-suc 2 s)),
      )

-- `(q << s) | v` is a sum when `v` fits `s` bits.
pub bit_or-add : (s q v : ℕ) → v < 2 ^ s → bit_or (q * 2 ^ s) v ≡ q * 2 ^ s + v
bit_or-add s q v hv = omega (
  arith,
  bit_or-bitwise (q * 2 ^ s) v,
  digits-add max (λ y. omega arith) (λ x. omega arith) s (q * 2 ^ s) (q * 2 ^ s) q v refl
      (omega arith) hv,
)

differ-zero : (x : ℕ) → differ x 0 ≡ x
differ-zero zero = refl
differ-zero (suc x) = refl

-- `(q << s) ^ v` too.
pub bit_xor-add : (s q v : ℕ) → v < 2 ^ s → bit_xor (q * 2 ^ s) v ≡ q * 2 ^ s + v
bit_xor-add s q v hv = omega (
  arith,
  bit_xor-bitwise (q * 2 ^ s) v,
  digits-add differ (λ y. refl) (λ x. differ-zero (x % 2)) s (q * 2 ^ s) (q * 2 ^ s) q v refl
      (omega arith) hv,
)
