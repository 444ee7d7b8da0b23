-- ===== src/Uart/Ready.antt =====
-- A UART that is set up sends the bytes that it is given, at the rate it was set up with.
use rflpc.Base.{
  ℕ, ◌+◌, ◌<◌, ◌==◌, if◌then◌else◌, not, Bool, true, false, List, [], ◌∷◌, ◌++◌, Option, none, some,
  bit_and, ◌||◌, ◌≡◌, ◌≢◌, refl, ap, ◌∙◌, ◌⊎◌, inl, inr, Bool-cases, arith,
}
use rflpc.Base.Integers.{pos, negsuc}
use rflpc.Base.Bits.{bit_at, bit_and-mask}
use rflpc.Base.Word.{u8, shl, clr_bit, bit_and-shl_one}
use rflpc.System.{System}
use rflpc.Uart.{
  UartRegs, Event, Uarts, pass, line_status, rx_ready, write_thr, putchar, set_line, write_dll,
  write_dlm, write_fcr, on_uart, with_clock, uart_init_ex,
}

-- The number of the events in which THR is free.
abbrev pub free_events : List Event → ℕ
free_events [] = 0
free_events ((free, bytes) ∷ es) = (if free then 1 else 0) + free_events es

rx_ready-lt : (l : List ℕ) → rx_ready l < 2
unfolding rx_ready
rx_ready-lt [] = omega arith
rx_ready-lt (x ∷ l) = omega arith

free_test : (e : Event) (r : UartRegs) → (bit_and (line_status e r) (shl 1 5) == 0) ≡ not e.0
unfolding line_status
free_test (true, bytes) r =
    ground (arith, bit_and-shl_one (line_status (true, bytes) r) 5, rx_ready-lt r.rx)
free_test (false, bytes) r =
    ground (arith, bit_and-shl_one (line_status (false, bytes) r) 5, rx_ready-lt r.rx)

-- A byte that has been handed to the transmitter.
pub record Put (c : ℕ) (es : List Event) (r : UartRegs) : Type 0 where
  pub after : UartRegs
  pub rest : List Event
  pub returns : putchar c es r ≡ some (after, rest)
  pub sends : after.tx ≡ r.tx ++ (c ∷ [])
  pub keeps : (after.dll ≡ r.dll) × (after.dlm ≡ r.dlm) × (after.fdr ≡ r.fdr) × (after.lcr ≡ r.lcr)

pub putchar_lem :
    (c : ℕ) (es : List Event) (r : UartRegs)
    → c < 256
    → bit_at r.lcr 7 ≡ 0
    → 0 < free_events es
    → Put c es r
unfolding putchar pass write_thr
putchar_lem c [] r small dlab h = absurd (omega arith)
putchar_lem c ((true, bytes) ∷ es) r small dlab h =
    let test = free_test (true, bytes) (pass (true, bytes) r) in
    let whole : bit_and c 0xff ≡ c = omega (arith, bit_and-mask 8 c) in
    record {
      after = record r { rx = (pass (true, bytes) r).rx; tx = r.tx ++ (c ∷ []) };
      rest = es;
      returns = rw (test, putchar) (rw (dlab, whole) refl);
      sends = refl;
      keeps = (refl, refl, refl, refl);
    }
putchar_lem c ((false, bytes) ∷ es) r small dlab h =
    let test = free_test (false, bytes) (pass (false, bytes) r) in
    let p = putchar_lem c es (pass (false, bytes) r) small dlab (omega arith) in
    record {
      after = p.after;
      rest = p.rest;
      returns = rw (test, putchar) p.returns;
      sends = p.sends;
      keeps = p.keeps;
    }

set_line_lem :
    (dll dlm divadd mulval : ℕ) (r : UartRegs)
    → let r' = set_line dll dlm divadd mulval r in
      (r'.lcr ≡ 3) × (r'.dll ≡ u8 dll) × (r'.dlm ≡ u8 dlm) × (r'.tx ≡ r.tx)
unfolding set_line write_dll write_dlm write_fcr clr_bit
set_line_lem dll dlm divadd mulval r = (refl, refl, refl, refl)

-- The UARTs that the driver has.
abbrev pub has_uart : ℕ → Bool
has_uart n = n == 0 || n == 2 || n == 3

abbrev or_else : Option System → System → System
or_else none s = s
or_else (some s') s = s'

with_clock_lem :
    (n : ℕ) (s : System) → has_uart n ≡ true → with_clock n s ≡ some (or_else (with_clock n s) s)
unfolding with_clock
with_clock_lem n s h = elim (Bool-cases (n == 0)) [
  | inl e ↦ rw e refl
  | inr e ↦ elim (Bool-cases (n == 2)) [
    | inl e₂ ↦ rw (e, e₂) refl
    | inr e₂ ↦ let third : (n == 3) ≡ true = ground (arith, e, e₂) in rw (e, e₂, third) refl
  ]
]

without_clock : (n : ℕ) (s : System) → has_uart n ≡ false → with_clock n s ≡ none
unfolding with_clock
without_clock n s h =
    let zeroth : (n == 0) ≡ false = ground arith in
    let second : (n == 2) ≡ false = ground arith in
    let third : (n == 3) ≡ false = ground arith in rw (zeroth, second, third) refl

-- Where the system clock is 96 MHz, rflpc_uart_init_ex returns 0 for the UARTs 0, 2 and 3, and after it
-- rflpc_uart_putchar returns once THR is free, has sent the byte on that UART behind those sent before, and has
-- left the divisor latches as they were set up, in their eight bits. The other UARTs keep their registers.
pub uart_init_ex-putchar :
    (n dll dlm divadd mulval c other : ℕ) (es : List Event) (u : Uarts)
    → has_uart n ≡ true
    → c < 256
    → 0 < free_events es
    → other ≢ n
    → let r = uart_init_ex 96000000 n dll dlm divadd mulval u in
      (r.0 ≡ pos 0)
      × ((r.1.regs other) ≡ u.regs other)
      × ((p : Put c es (r.1.regs n)) × (p.after.tx ≡ (u.regs n).tx ++ (c ∷ []))
          × (p.after.dll ≡ u8 dll)
          × (p.after.dlm ≡ u8 dlm))
unfolding uart_init_ex on_uart
uart_init_ex-putchar n dll dlm divadd mulval c other es u has small free apart =
    let e = with_clock_lem n u.system has in
    let line = set_line dll dlm divadd mulval (u.regs n) in
    let (lcr, low, high, tx) = set_line_lem dll dlm divadd mulval (u.regs n) in
    let self : (n == n) ≡ true = ground arith in
    let elsewhere : (other == n) ≡ false = ground arith in
    let p = putchar_lem c es line small (ap (λ v. bit_at v 7) lcr) free in
    rw (e, self, elsewhere)
      (refl, refl, (p, p.sends ∙ ap (λ l. l ++ (c ∷ [])) tx, p.keeps.0 ∙ low, p.keeps.1 ∙ high))

-- With another system clock, or for another number, rflpc_uart_init_ex returns -1 and changes nothing.
pub uart_init_ex-Refuses :
    (system_clock n dll dlm divadd mulval : ℕ) (u : Uarts)
    → (system_clock ≢ 96000000) ⊎ (has_uart n ≡ false)
    → uart_init_ex system_clock n dll dlm divadd mulval u ≡ (negsuc 0, u)
unfolding uart_init_ex
uart_init_ex-Refuses system_clock n dll dlm divadd mulval u h = elim h [
  | inl slow ↦ let other : (system_clock == 96000000) ≡ false = ground arith in rw other refl
  | inr missing ↦ elim (Bool-cases (system_clock == 96000000)) [
    | inl right ↦ rw (right, without_clock n u.system missing) refl
    | inr wrong ↦ rw wrong refl
  ]
]
