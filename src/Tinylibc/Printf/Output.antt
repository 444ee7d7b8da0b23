-- ===== src/Tinylibc/Printf/Output.antt =====
-- What printf puts for plain text and for its conversions of numbers.
use mathlib.Core.List.{append_assoc, append-nil}
use rflpc.Base.{
  ℕ, zero, suc, ◌+◌, ◌-◌, ◌*◌, ◌^◌, ◌<◌, if◌then◌else◌, leb, ◌≡◌, ◌≢◌, refl, inl, inr, List, [],
  ◌∷◌, ◌++◌, Option, some, none, Bool, true, false, length, length-append, Bool-cases, arith,
}
use rflpc.Base.Word.{u32}
use rflpc.Tinylibc.Printf.Numbers.{Out, int_number, hexa_val}
use rflpc.Tinylibc.Printf.Convert.{
  Printer, put_char, put_all, convert, zero_flag, width, print_from, printf,
}
use rflpc.Tinylibc.Printf.Decimal.{IsDecimal, int_number-IsDecimal}

-- A text behind the other characters.
abbrev appended : Printer → List ℕ → Printer
appended p cs = record p {
  out = record { count = p.out.count + length cs; chars = p.out.chars ++ cs };
}

put_all_lem : (cs : List ℕ) (p : Printer) → put_all cs p ≡ appended p cs
unfolding put_all put_char
put_all_lem [] p = ground (arith, append-nil p.out.chars)
put_all_lem (c ∷ cs) p =
    ground (arith, put_all_lem cs (put_char c p), append_assoc p.out.chars (c ∷ []) cs)

-- No character is `%`.
abbrev pub IsPlain : List ℕ → Type 0
IsPlain [] = Unit {0}
IsPlain (c ∷ cs) = (c ≢ b'%') × IsPlain cs

print_plain :
    (text : ℕ → List ℕ) (fuel : ℕ) (format : List ℕ) (p : Printer)
    → length format < fuel
    → IsPlain format
    → print_from text fuel format p ≡ some (put_all format p)
unfolding print_from put_all
print_plain text zero format p h plain = absurd (omega arith)
print_plain text (suc fuel) [] p h plain = refl
print_plain text (suc fuel) (c ∷ cs) p h plain =
    ground (arith, print_plain text fuel cs (put_char c p) (omega arith) plain.1, plain.0)

-- A format without `%` is put as it stands, whatever the arguments, and its length is returned.
pub printf_plain :
    (text : ℕ → List ℕ) (format args : List ℕ)
    → IsPlain format
    → printf text format args ≡ some (record { count = length format; chars = format })
unfolding printf
printf_plain text format args plain =
    let start : Printer = record {
      print_zero = false;
      ccount = 4;
      args = args;
      out = record { count = 0; chars = [] };
    } in
    ground (
      arith,
      print_plain text (length format + 1) format start (omega arith) plain,
      put_all_lem format start,
    )

-- The characters that a call puts.
abbrev pub output : Option Out → Option (List ℕ)
output none = none
output (some o) = some o.chars

-- The printer before the arguments `args`, with `cs` already put.
abbrev printing : Bool → ℕ → List ℕ → List ℕ → Printer
printing z n args cs = record {
  print_zero = z;
  ccount = n;
  args = args;
  out = record { count = length cs; chars = cs };
}

module _ (text : ℕ → List ℕ) (a : ℕ) (more cs : List ℕ) where
  convert_hexa :
      (z : Bool) (n : ℕ)
      → convert text b'x' (printing z n (a ∷ more) cs)
        ≡ some (printing false n more (cs ++ hexa_val a b'a' (n * 8) z))
  unfolding convert
  convert_hexa z n =
      let v = hexa_val a b'a' (n * 8) z in
      ground (arith, put_all_lem v (printing z n more cs), length-append cs v)

  convert_positive :
      (z : Bool) (n : ℕ) (v : List ℕ)
      → leb (2 ^ 31) a ≡ false
      → int_number a ≡ some v
      → convert text b'd' (printing z n (a ∷ more) cs) ≡ some (printing z n more (cs ++ v))
  unfolding convert
  convert_positive z n v e run =
      ground (arith, put_all_lem v (printing z n more cs), length-append cs v)

  convert_negative :
      (z : Bool) (n : ℕ) (v : List ℕ)
      → leb (2 ^ 31) a ≡ true
      → int_number (2 ^ 32 - a) ≡ some v
      → convert text b'd' (printing z n (a ∷ more) cs)
        ≡ some (printing z n more ((cs ++ b'-' ∷ []) ++ v))
  unfolding convert put_char
  convert_negative z n v e run =
      let negated : u32 (2 ^ 32 - a) ≡ 2 ^ 32 - a = ground arith in
      let dashed = cs ++ b'-' ∷ [] in
      ground (
        arith,
        negated,
        put_all_lem v (printing z n more dashed),
        length-append cs (b'-' ∷ []),
        length-append dashed v,
      )

-- A width of one byte (`%2x`) stays in force for the conversions behind it: in "%2x%x" the second
-- number, too, is cut to its low byte.
pub printf_width_stays :
    (text : ℕ → List ℕ) (a b : ℕ)
    → output (printf text (b'%' ∷ b'2' ∷ b'x' ∷ b'%' ∷ b'x' ∷ []) (a ∷ b ∷ []))
      ≡ some (hexa_val a b'a' 8 false ++ hexa_val b b'a' 8 false)
unfolding printf print_from width zero_flag
printf_width_stays text a b = ground (
  arith,
  convert_hexa text a (b ∷ []) [] false 1,
  convert_hexa text b [] (hexa_val a b'a' 8 false) false 1,
)

-- For a word of 32 bits "%d" puts its decimal representation as a signed number: that of the word
-- if its top bit is clear, and else `-` with that of 2^32 less the word.
pub printf_signed :
    (text : ℕ → List ℕ) (a : ℕ)
    → a < 2 ^ 32
    → (cs : List ℕ) × IsDecimal (if leb (2 ^ 31) a then 2 ^ 32 - a else a) cs
      × (output (printf text (b'%' ∷ b'd' ∷ []) (a ∷ []))
          ≡ some (if leb (2 ^ 31) a then b'-' ∷ cs else cs))
unfolding printf print_from width zero_flag
printf_signed text a small = elim (Bool-cases (leb (2 ^ 31) a)) [
  | inl e ↦
      let (cs, run, decimal) = int_number-IsDecimal (2 ^ 32 - a) (ground arith) in
      (cs, rw e decimal, ground (arith, convert_negative text a [] [] false 4 cs e run))
  | inr e ↦
      let (cs, run, decimal) = int_number-IsDecimal a small in
      (cs, rw e decimal, ground (arith, convert_positive text a [] [] false 4 cs e run))
]
