-- ===== src/Tinylibc/Printf/Convert.antt =====
-- The function printf: what stands between `%` and the conversion character, and the loop.
use rflpc.Base.{
  ℕ, zero, suc, ◌+◌, ◌-◌, ◌*◌, ◌/◌, ◌^◌, ◌==◌, if◌then◌else◌, leb, ◌&&◌, ◌||◌, List, [], ◌∷◌, ◌++◌,
  Option, some, none, Bool, true, false, length,
}
use rflpc.Base.Word.{u32, u8}
use rflpc.Tinylibc.Printf.Numbers.{Out, int_number, hexa_val}

-- `print_zero`, `ccount`, the arguments that are left and what was put so far.
pub record Printer : Type 0 where
  pub print_zero : Bool
  pub ccount : ℕ
  pub args : List ℕ
  pub out : Out

-- `PUTCHAR`
unfoldable pub put_char : ℕ → Printer → Printer
put_char c p = record p { out = record { count = p.out.count + 1; chars = p.out.chars ++ c ∷ [] } }

-- `PUTS`, and the other macros once their characters are known
unfoldable pub put_all : List ℕ → Printer → Printer
put_all [] p = p
put_all (c ∷ cs) p = put_all cs (put_char c p)

abbrev pub put_number : Option (List ℕ) → Printer → Option Printer
put_number none p = none
put_number (some cs) p = some (put_all cs p)

-- `va_arg`: a word, if the caller has passed one.
unfoldable pub next_arg : Printer → (ℕ → Printer → Option Printer) → Option Printer
next_arg p k = elim p.args [ [] ↦ none | a ∷ more ↦ k a (record p { args = more }) ]

-- The inner switch on the conversion character. `text` is the string at an address.
module _ (text : ℕ → List ℕ) where
  unfoldable pub convert : ℕ → Printer → Option Printer
  unfolding next_arg
  convert c p =
      if c == b'd' || c == b'i'
      then next_arg p (λ a q.
        (if leb (2 ^ 31) a
          then put_number (int_number (u32 (2 ^ 32 - a))) (put_char b'-' q)
          else put_number (int_number a) q))
      else if c == b'u'
      then next_arg p (λ a q. put_number (int_number a) q)
      else if c == b'p' || c == b'P'
      then next_arg p (λ a q.
        some (put_all (hexa_val a (c - (b'p' - b'a')) 32 true) (put_char b'x' (put_char b'0' q))))
      else if c == b'x' || c == b'X'
      then next_arg p (λ a q.
        (let r = put_all (hexa_val a (c - (b'x' - b'a')) (q.ccount * 8) q.print_zero) q in
          some (record r { print_zero = false })))
      else if c == b'c'
      then next_arg p (λ a q. some (put_char (u8 a) q))
      else if c == b's'
      then next_arg p (λ a q. some (put_all (text a) q))
      else if c == b'%'
      then some (put_char b'%' p)
      else next_arg p (λ a q. some q)

  -- `if (*format == '0') …`
  unfoldable pub zero_flag : List ℕ → Printer → List ℕ × Printer
  zero_flag [] p = ([], p)
  zero_flag (c ∷ cs) p = if c == b'0' then (cs, record p { print_zero = true }) else (c ∷ cs, p)

  -- `if (*format >= '2' && *format <= '4') …`
  unfoldable pub width : List ℕ → Printer → List ℕ × Printer
  width [] p = ([], p)
  width (c ∷ cs) p =
      if leb b'2' c && leb c b'4' then (cs, record p { ccount = (c - b'0') / 2 }) else (c ∷ cs, p)

  -- The loop, on fuel. A format that ends inside a conversion is read beyond its end: `none`, and
  -- so for a missing argument.
  unfoldable pub print_from : ℕ → List ℕ → Printer → Option Printer
  print_from zero format p = none
  print_from (suc fuel) [] p = some p
  print_from (suc fuel) (c ∷ cs) p =
      let plain = print_from fuel cs (put_char c p) in
      let (cs1, p1) = zero_flag cs p in
      let (cs2, p2) = width cs1 p1 in
      if c == b'%'
      then elim cs2 [
        | [] ↦ none
        | conversion ∷ rest ↦ elim (convert conversion p2) [
          | none ↦ none
          | some q ↦ print_from fuel rest q
        ]
      ]
      else plain

  -- `printf (format, args…)`: the count that it returns and the characters that it puts.
  unfoldable pub printf : List ℕ → List ℕ → Option Out
  printf format args =
      let start : Printer = record {
        print_zero = false;
        ccount = 4;
        args = args;
        out = record { count = 0; chars = [] };
      } in
      elim (print_from (length format + 1) format start) [ none ↦ none | some p ↦ some p.out ]
