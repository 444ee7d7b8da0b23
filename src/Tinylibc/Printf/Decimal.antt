-- ===== src/Tinylibc/Printf/Decimal.antt =====
-- What PUT_INT_NUMBER puts: the decimal representation.
use native.Mathlib.Nat.{add-zero, pow-suc, one-le-pow}
use rflpc.Base.{
  ℕ, zero, suc, ◌+◌, ◌-◌, ◌*◌, ◌/◌, ◌%◌, ◌^◌, ◌≤◌, ◌<◌, leb, ◌≡◌, refl, ap, ◌∙◌, ◌⊎◌, inl, inr,
  List, [], ◌∷◌, true, false, some, length, Bool-cases, arith,
}
use rflpc.Base.Word.{u32}
use rflpc.Tinylibc.Printf.Numbers.{grow_pow, int_digits, int_number, int_digit}

-- The number that a text in base 10 stands for, read from the left after `acc`.
abbrev pub decimal_value : ℕ → List ℕ → ℕ
decimal_value acc [] = acc
decimal_value acc (c ∷ cs) = decimal_value (acc * 10 + (c - 48)) cs

-- All characters are digits.
abbrev pub AreDigits : List ℕ → Type 0
AreDigits [] = Unit {0}
AreDigits (c ∷ cs) = ((48 ≤ c) × (c ≤ 57)) × AreDigits cs

-- The loop stops at the power of ten that has as many digits as the number.
pub record IsTop (val : ℕ) (k : ℕ) : Type 0 where
  pub above : val < 10 ^ suc k
  pub below : (10 ^ k ≤ val) ⊎ (k ≡ 0)

div_below : (v p : ℕ) → 0 < p → v / p < 10 → v < p * 10
div_below v p pos h = grind arith

div_above : (v p : ℕ) → 0 < p → 10 ≤ v / p → p * 10 ≤ v
div_above v p pos h = grind arith

module _ (k val : ℕ) where
  stop_above : leb 10 (val / 10 ^ k) ≡ false → val < 10 ^ suc k
  stop_above e =
      rw (pow-suc 10 k) (div_below val (10 ^ k) (one-le-pow k 10 (omega arith)) (ground arith))

  grow_below : leb 10 (val / 10 ^ k) ≡ true → 10 ^ suc k ≤ val
  grow_below e =
      rw (pow-suc 10 k) (div_above val (10 ^ k) (one-le-pow k 10 (omega arith)) (ground arith))

-- With room for `f` more digits, `f + 1` rounds are enough, and the power does not wrap.
IsTop-grown :
    (f k val : ℕ)
    → val < 2 ^ 32
    → val < 10 ^ (suc k + f)
    → (10 ^ k ≤ val) ⊎ (k ≡ 0)
    → (j : ℕ) × (grow_pow (suc f) val (10 ^ k) ≡ some (10 ^ j)) × IsTop val j × (j ≤ k + f)
unfolding grow_pow
IsTop-grown zero k val small room low =
    let last : val < 10 ^ suc k = rw add-zero at room in
    elim (Bool-cases (leb 10 (val / 10 ^ k))) [
      | inr e ↦ (k, rw e, record { above = last; below = low }, omega arith)
      | inl e ↦ absurd (omega (arith, grow_below k val e))
    ]
IsTop-grown (suc f) k val small room low = elim (Bool-cases (leb 10 (val / 10 ^ k))) [
  | inr e ↦ (k, rw e, record { above = stop_above k val e; below = low }, omega arith)
  | inl e ↦
      let fits : u32 (10 ^ k * 10) ≡ 10 ^ suc k = omega (arith, pow-suc 10 k, grow_below k val e) in
      let shift : suc k + suc f ≡ suc (suc k) + f = omega arith in
      let (j, grown, top, le) =
        IsTop-grown f (suc k) val small (rw shift at room) (inl (grow_below k val e)) in
      (j, rw (e, fits) grown, top, omega arith)
]

-- The digits from a power of ten down: as many as its place, in range, and of the right value.
record Prints (val k acc : ℕ) (cs : List ℕ) : Type 0 where
  count : length cs ≡ suc k
  digits : AreDigits cs
  value : decimal_value acc cs ≡ acc * 10 ^ suc k + val

top_digit : (v p : ℕ) → 0 < p → v < p * 10 → v / p < 10
top_digit v p pos h = grind arith

regroup : (acc q p r : ℕ) → (acc * 10 + q) * p + r ≡ acc * (p * 10) + (q * p + r)
regroup acc q p r = omega arith

divided : (v p : ℕ) → v / p * p + v % p ≡ v
divided v p = omega arith

Prints-cons :
    (val k acc : ℕ) (cs : List ℕ)
    → val < 10 ^ suc (suc k)
    → Prints (val % 10 ^ suc k) k (acc * 10 + val / 10 ^ suc k) cs
    → Prints val (suc k) acc (int_digit (val / 10 ^ suc k) ∷ cs)
Prints-cons val k acc cs h r =
    let p = 10 ^ suc k in
    let q = val / p in
    let small : q < 10 =
      top_digit val p (one-le-pow (suc k) 10 (omega arith)) (rw (pow-suc 10 (suc k)) at h) in
    let digit : 48 + q - 48 ≡ q = omega arith in
    record {
      count = ap suc r.count;
      digits = ((omega arith, omega arith), r.digits);
      value =
          rw (digit, r.value, pow-suc 10 (suc k))
            (regroup acc q p (val % p) ∙ ap (λ (t : ℕ). acc * (p * 10) + t) (divided val p));
    }

digits_printed :
    (f k val acc : ℕ)
    → k ≤ f
    → val < 10 ^ suc k
    → (cs : List ℕ) × (int_digits (suc (suc f)) val (10 ^ k) ≡ some cs) × Prints val k acc cs
unfolding int_digits
digits_printed f zero val acc le h = (
  int_digit (val / 1) ∷ [],
  ground arith,
  record { count = refl; digits = ((omega arith, omega arith), tt); value = omega arith },
)
digits_printed zero (suc k) val acc le h = absurd (omega arith)
digits_printed (suc f) (suc k) val acc le h =
    let p = 10 ^ suc k in
    let pos : 0 < p = one-le-pow (suc k) 10 (omega arith) in
    let (cs, run, prints) =
      digits_printed f k (val % p) (acc * 10 + val / p) (omega arith) (omega arith) in
    let lower : p / 10 ≡ 10 ^ k = omega (arith, pow-suc 10 k) in
    let positive : leb 1 p ≡ true = ground arith in
    (int_digit (val / p) ∷ cs, rw (positive, lower, run), Prints-cons val k acc cs h prints)

-- A text in base 10 of a number: digits only, of that value, and no zero in front unless the text
-- is one digit long.
pub record IsDecimal (val : ℕ) (cs : List ℕ) : Type 0 where
  pub digits : AreDigits cs
  pub value : decimal_value 0 cs ≡ val
  pub shortest : (10 ^ (length cs - 1) ≤ val) ⊎ (length cs ≡ 1)
  pub nonempty : 0 < length cs

int_number_of :
    (val m : ℕ) (cs : List ℕ)
    → grow_pow 10 val 1 ≡ some m
    → int_digits 11 val m ≡ some cs
    → int_number val ≡ some cs
unfolding int_number
int_number_of val m cs g d = ground arith

-- For every 32-bit number PUT_INT_NUMBER comes to an end and puts its decimal representation: only
-- digits, which stand for the number, and no zero in front unless it is the only digit.
pub int_number-IsDecimal :
    (val : ℕ) → val < 2 ^ 32 → (cs : List ℕ) × (int_number val ≡ some cs) × IsDecimal val cs
int_number-IsDecimal val small =
    let (j, grown, top, le) = IsTop-grown 9 0 val small (omega arith) (inr refl) in
    let (cs, run, prints) = digits_printed 9 j val 0 le top.above in
    let place : length cs - 1 ≡ j = omega (arith, prints.count) in
    (
      cs,
      int_number_of val (10 ^ j) cs grown run,
      record {
        digits = prints.digits;
        value = omega (arith, prints.value);
        shortest = rw (place, prints.count) (ground (arith, top.below));
        nonempty = omega (arith, prints.count);
      },
    )
