-- ===== src/Tinylibc/Printf/Loop.antt =====
-- The function printf as a whole: its count, plain text, and the state that outlives a conversion.
use rflpc.Base.{
  ℕ, zero, suc, ◌+◌, ◌-◌, ◌*◌, ◌^◌, ◌==◌, if◌then◌else◌, leb, ◌≡◌, refl, List, [], ◌∷◌, Option,
  some, none, ◌||◌, Bool, true, false, length, length-append, arith,
}
use rflpc.Base.Word.{u32, u8}
use rflpc.Tinylibc.Printf.Numbers.{Out, int_number, hexa_val}
use rflpc.Tinylibc.Printf.Convert.{
  Printer, put_char, put_all, put_number, next_arg, convert, zero_flag, width, print_from, printf,
}

-- The count is the number of characters that were put.
abbrev pub IsCounted : Out → Type 0
IsCounted o = o.count ≡ length o.chars

put_char-IsCounted : (c : ℕ) (p : Printer) → IsCounted p.out → IsCounted (put_char c p).out
unfolding put_char
put_char-IsCounted c p h = omega (arith, length-append p.out.chars (c ∷ []))

put_all-IsCounted : (cs : List ℕ) (p : Printer) → IsCounted p.out → IsCounted (put_all cs p).out
unfolding put_all
put_all-IsCounted [] p h = h
put_all-IsCounted (c ∷ cs) p h = put_all-IsCounted cs (put_char c p) (put_char-IsCounted c p h)

-- The same of a printer that may be none.
data Counted : Option Printer → Type 0 where
  nothing : Counted none
  just : {p : Printer} → IsCounted p.out → Counted (some p)

counted : {p : Printer} → Counted (some p) → IsCounted p.out
counted (just h) = h

branch : (b : Bool) {x y : Option Printer} → Counted x → Counted y → Counted (if b then x else y)
branch true h k = h
branch false h k = k

put_number-Counted :
    (cs : Option (List ℕ)) (p : Printer) → IsCounted p.out → Counted (put_number cs p)
put_number-Counted none p h = nothing
put_number-Counted (some cs) p h = just (put_all-IsCounted cs p h)

next_arg-Counted :
    (p : Printer) (k : ℕ → Printer → Option Printer)
    → IsCounted p.out
    → ((a : ℕ) (q : Printer) → IsCounted q.out → Counted (k a q))
    → Counted (next_arg p k)
unfolding next_arg
next_arg-Counted p k h keep = go p.args
  where
    go :
        (args : List ℕ)
        → Counted (elim args [ [] ↦ none | a ∷ more ↦ k a (record p { args = more }) ])
    go [] = nothing
    go (a ∷ more) = keep a (record p { args = more }) h

module _ (text : ℕ → List ℕ) where
  convert-Counted : (c : ℕ) (p : Printer) → IsCounted p.out → Counted (convert text c p)
  unfolding convert
  convert-Counted c p h =
      branch (c == b'd' || c == b'i')
        (next_arg-Counted p
          (λ a q.
            (if leb (2 ^ 31) a
              then put_number (int_number (u32 (2 ^ 32 - a))) (put_char b'-' q)
              else put_number (int_number a) q))
          h
          (λ a q g.
            branch (leb (2 ^ 31) a)
              (put_number-Counted (int_number (u32 (2 ^ 32 - a))) (put_char b'-' q)
                (put_char-IsCounted b'-' q g))
              (put_number-Counted (int_number a) q g)))
        (branch (c == b'u')
          (next_arg-Counted p (λ a q. put_number (int_number a) q) h
            (λ a q g. put_number-Counted (int_number a) q g))
          (branch (c == b'p' || c == b'P')
            (next_arg-Counted p
              (λ a q. some (
                put_all (hexa_val a (c - (b'p' - b'a')) 32 true) (put_char b'x' (put_char b'0' q))))
              h
              (λ a q g. just (
                put_all-IsCounted (hexa_val a (c - (b'p' - b'a')) 32 true)
                  (put_char b'x' (put_char b'0' q))
                  (put_char-IsCounted b'x' (put_char b'0' q) (put_char-IsCounted b'0' q g)))))
            (branch (c == b'x' || c == b'X')
              (next_arg-Counted p
                (λ a q.
                  (let r = put_all (hexa_val a (c - (b'x' - b'a')) (q.ccount * 8) q.print_zero) q in
                    some (record r { print_zero = false })))
                h
                (λ a q g. just (
                  put_all-IsCounted (hexa_val a (c - (b'x' - b'a')) (q.ccount * 8) q.print_zero) q
                    g)))
              (branch (c == b'c')
                (next_arg-Counted p (λ a q. some (put_char (u8 a) q)) h
                  (λ a q g. just (put_char-IsCounted (u8 a) q g)))
                (branch (c == b's')
                  (next_arg-Counted p (λ a q. some (put_all (text a) q)) h
                    (λ a q g. just (put_all-IsCounted (text a) q g)))
                  (branch (c == b'%') (just (put_char-IsCounted b'%' p h))
                    (next_arg-Counted p (λ a q. some q) h (λ a q g. just g))))))))

  zero_flag-IsCounted :
      (cs : List ℕ) (p : Printer) → IsCounted p.out → IsCounted (zero_flag text cs p).1.out
  unfolding zero_flag
  zero_flag-IsCounted [] p h = h
  zero_flag-IsCounted (c ∷ cs) p h = ground arith

  width-IsCounted :
      (cs : List ℕ) (p : Printer) → IsCounted p.out → IsCounted (width text cs p).1.out
  unfolding width
  width-IsCounted [] p h = h
  width-IsCounted (c ∷ cs) p h = ground arith

  -- One conversion, and what is printed after it.
  then-Counted :
      (cs : List ℕ) (p : Printer) (rest : List ℕ → Printer → Option Printer)
      → IsCounted p.out
      → ((l : List ℕ) (q : Printer) → IsCounted q.out → Counted (rest l q))
      → Counted (elim cs [
        | [] ↦ none
        | conversion ∷ l ↦ elim (convert text conversion p) [ none ↦ none | some q ↦ rest l q ]
      ])
  then-Counted [] p rest h keep = nothing
  then-Counted (c ∷ l) p rest h keep = go (convert text c p) (convert-Counted c p h)
    where
      go : (o : Option Printer) → Counted o → Counted (elim o [ none ↦ none | some q ↦ rest l q ])
      go none k = nothing
      go (some q) k = keep l q (counted k)

  print_from-Counted :
      (fuel : ℕ) (format : List ℕ) (p : Printer)
      → IsCounted p.out
      → Counted (print_from text fuel format p)
  unfolding print_from
  print_from-Counted zero format p h = nothing
  print_from-Counted (suc fuel) [] p h = just h
  print_from-Counted (suc fuel) (c ∷ cs) p h =
      let (cs1, p1) = zero_flag text cs p in
      let (cs2, p2) = width text cs1 p1 in
      branch (c == b'%')
        (then-Counted cs2 p2 (print_from text fuel)
          (width-IsCounted cs1 p1 (zero_flag-IsCounted cs p h))
          (λ l q k. print_from-Counted fuel l q k))
        (print_from-Counted fuel cs (put_char c p) (put_char-IsCounted c p h))

-- Whenever `printf` returns, the count that it returns is the number of characters that it has put.
pub printf_count :
    (text : ℕ → List ℕ) (format args : List ℕ) {o : Out}
    → printf text format args ≡ some o
    → o.count ≡ length o.chars
unfolding printf
printf_count text format args {o} e =
    go (print_from text (length format + 1) format start)
      (print_from-Counted text (length format + 1) format start refl) e
  where
    start : Printer
    start = record {
      print_zero = false;
      ccount = 4;
      args = args;
      out = record { count = 0; chars = [] };
    }

    go :
        (r : Option Printer)
        → Counted r
        → elim r [ none ↦ none | some p ↦ some p.out ] ≡ some o
        → o.count ≡ length o.chars
    go none k h = cc
    go (some p) k h = ground (arith, counted k)
