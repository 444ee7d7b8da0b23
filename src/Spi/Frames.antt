-- ===== src/Spi/Frames.antt =====
-- Frames through the FIFOs.
use mathlib.Core.List.{append_assoc}
use rflpc.Base.{
  ℕ, zero, suc, ◌+◌, ◌-◌, ◌≤◌, ◌<◌, ◌==◌, if◌then◌else◌, ltb, List, [], ◌∷◌, ◌++◌, some, true,
  false, length, take, drop, take-append-drop, length-drop, length-append, ◌≡◌, refl, sym, ap, ◌∙◌,
  inl, inr, Bool-cases, arith,
}
use rflpc.Base.Word.{u16, bit_and-shl_one}
use rflpc.Spi.{Ssp, Event, pass, status, is_empty, tx_fifo_full, tx_fifo_empty, write_dr, spi_write}

pub full_test : (s : Ssp) → tx_fifo_full (status s) ≡ (if ltb (length s.tx) 8 then false else true)
unfolding tx_fifo_full status
full_test s = elim (Bool-cases (is_empty s.tx)) [
  | inl e ↦ rw e (ground (arith, bit_and-shl_one (status s) 1))
  | inr e ↦ rw e (ground (arith, bit_and-shl_one (status s) 1))
]

pub empty_test : (s : Ssp) → tx_fifo_empty (status s) ≡ is_empty s.tx
unfolding tx_fifo_empty status
empty_test s = elim (Bool-cases (is_empty s.tx)) [
  | inl e ↦ rw e (ground (arith, bit_and-shl_one (status s) 0))
  | inr e ↦ rw e (ground (arith, bit_and-shl_one (status s) 0))
]

-- All that a port was given: what has gone to the shift register, and what waits in the FIFO.
abbrev pub flow : Ssp → List ℕ
flow s = s.sent ++ s.tx

-- The number of the events in which a frame leaves the FIFO.
abbrev pub moving : List Event → ℕ
moving [] = 0
moving ((n, done, frames) ∷ es) = (if n == 0 then 0 else 1) + moving es

pub pass-flow : (e : Event) (s : Ssp) → flow (pass e s) ≡ flow s
unfolding pass
pass-flow (n, done, frames) s =
    append_assoc s.sent (take n s.tx) (drop n s.tx)
    ∙ ap (λ r. s.sent ++ r) (take-append-drop n s.tx)

pub length-pass : (e : Event) (s : Ssp) → length (pass e s).tx ≡ length s.tx - e.0
unfolding pass
length-pass (n, done, frames) s = length-drop n s.tx

take_short : (n : ℕ) (l : List ℕ) → length l ≤ n → take n l ≡ l
take_short zero [] h = refl
take_short (suc n) [] h = refl
take_short zero (x ∷ l) h = absurd (omega arith)
take_short (suc n) (x ∷ l) h = ap (λ r. x ∷ r) (take_short n l (omega arith))

write_dr-flow :
    (frame : ℕ) (s : Ssp)
    → length s.tx < 8
    → (flow (write_dr frame s) ≡ flow s ++ (frame ∷ [])) × (length (write_dr frame s).tx ≤ 8)
unfolding write_dr
write_dr-flow frame s h =
    let long : length (s.tx ++ (frame ∷ [])) ≡ length s.tx + 1 = length-append s.tx (frame ∷ []) in
    let whole = take_short 8 (s.tx ++ (frame ∷ [])) (omega (arith, long)) in
    (
      ap (λ r. s.sent ++ r) whole ∙ sym (append_assoc s.sent s.tx (frame ∷ [])),
      rw whole (omega (arith, long)),
    )

-- A write that has returned, from the state `s` with the events `es`.
pub record Written (frame : ℕ) (es : List Event) (s : Ssp) : Type 0 where
  pub after : Ssp
  pub rest : List Event
  pub returns : spi_write frame es s ≡ some (after, rest)
  pub flows : flow after ≡ flow s ++ (u16 frame ∷ [])
  pub fits : length after.tx ≤ 8
  pub pace : moving es ≤ moving rest + 1

-- rflpc_spi_write returns if a frame leaves the FIFO in one of the events, and then the frame stands behind all the
-- others.
pub spi_write_lem :
    (frame : ℕ) (es : List Event) (s : Ssp) → length s.tx ≤ 8 → 0 < moving es → Written frame es s
unfolding spi_write
spi_write_lem frame [] s h m = absurd (omega arith)
spi_write_lem frame ((n, done, frames) ∷ es) s h m =
    let s' = pass (n, done, frames) s in
    let len = length-pass (n, done, frames) s in
    let kept = pass-flow (n, done, frames) s in
    elim (Bool-cases (ltb (length s'.tx) 8)) [
      | inl room ↦
          let goes : tx_fifo_full (status s') ≡ false = full_test s' ∙ rw room refl in
          let (flows, fits) = write_dr-flow (u16 frame) s' (ground (arith, room)) in
          record {
            after = write_dr (u16 frame) s';
            rest = es;
            returns = rw (goes, spi_write) refl;
            flows = flows ∙ ap (λ l. l ++ (u16 frame ∷ [])) kept;
            fits = fits;
            pace = ground arith;
          }
      | inr full ↦
          let waits : tx_fifo_full (status s') ≡ true = full_test s' ∙ rw full refl in
          let still : n ≡ 0 = ground (arith, full, len) in
          let w = spi_write_lem frame es s' (omega (arith, len)) (ground (arith, still)) in
          record {
            after = w.after;
            rest = w.rest;
            returns = rw (waits, spi_write) w.returns;
            flows = w.flows ∙ ap (λ l. l ++ (u16 frame ∷ [])) kept;
            fits = w.fits;
            pace = ground (arith, still, w.pace);
          }
    ]
