-- ===== src/LedMatrix/Display.antt =====
-- The bytes of a buffer go out to the matrix.
use mathlib.Core.List.{append_assoc, append-nil}
use rflpc.Base.{
  ℕ, zero, suc, ◌+◌, ◌≤◌, ◌<◌, List, [], ◌∷◌, ◌++◌, some, map, length, true, false, ◌≡◌, refl, sym,
  ap, ◌∙◌, inl, inr, Bool-cases, arith,
}
use rflpc.Base.Word.{u16}
use rflpc.Base.Memory.{Memory, load_all}
use rflpc.Spi.{Ssp, Event, pass, is_empty}
use rflpc.Spi.Frames.{flow, moving, spi_write_lem, pass-flow, length-pass, empty_test}
use rflpc.LedMatrix.{write_bytes, wait_sent, led_matrix_display_buffer}

record Loaded (n p : ℕ) (m : Memory) (es : List Event) (s : Ssp) : Type 0 where
  after : Ssp
  rest : List Event
  returns : write_bytes n p m es s ≡ some (after, rest)
  flows : flow after ≡ flow s ++ map u16 (load_all m p n)
  fits : length after.tx ≤ 8
  pace : moving es ≤ moving rest + n

write_bytes_lem :
    (n p : ℕ) (m : Memory) (es : List Event) (s : Ssp)
    → length s.tx ≤ 8
    → n < moving es
    → Loaded n p m es s
unfolding write_bytes
write_bytes_lem zero p m es s h k = record {
  after = s;
  rest = es;
  returns = refl;
  flows = sym (append-nil (flow s));
  fits = h;
  pace = omega arith;
}
write_bytes_lem (suc n) p m es s h k =
    let w = spi_write_lem (m p) es s h (omega arith) in
    let l = write_bytes_lem n (p + 1) m w.rest w.after w.fits (omega (arith, w.pace)) in
    record {
      after = l.after;
      rest = l.rest;
      returns = rw w.returns l.returns;
      flows =
          l.flows
          ∙ ap (λ f. f ++ map u16 (load_all m (p + 1) n)) w.flows
          ∙ append_assoc (flow s) (u16 (m p) ∷ []) (map u16 (load_all m (p + 1) n));
      fits = l.fits;
      pace = omega (arith, w.pace, l.pace);
    }

record Emptied (es : List Event) (s : Ssp) : Type 0 where
  after : Ssp
  rest : List Event
  returns : wait_sent es s ≡ some (after, rest)
  empty : after.tx ≡ []
  flows : flow after ≡ flow s

is_empty-nil : (l : List ℕ) → is_empty l ≡ true → l ≡ []
unfolding is_empty
is_empty-nil [] h = refl
is_empty-nil (x ∷ l) h = absurd (ground arith)

is_empty-length : (l : List ℕ) → is_empty l ≡ false → 0 < length l
unfolding is_empty
is_empty-length [] h = ground arith
is_empty-length (x ∷ l) h = omega arith

wait_sent_lem : (es : List Event) (s : Ssp) → length s.tx < moving es → Emptied es s
unfolding wait_sent
wait_sent_lem [] s k = absurd (omega arith)
wait_sent_lem (e ∷ es) s k =
    let s' = pass e s in
    elim (Bool-cases (is_empty s'.tx)) [
      | inl gone ↦ record {
        after = s';
        rest = es;
        returns = rw (empty_test s' ∙ gone, wait_sent) refl;
        empty = is_empty-nil s'.tx gone;
        flows = pass-flow e s;
      }
      | inr left ↦
          let some_left = is_empty-length s'.tx left in
          let l = wait_sent_lem es s' (ground (arith, length-pass e s, some_left)) in
          record {
            after = l.after;
            rest = l.rest;
            returns = rw (empty_test s' ∙ left, wait_sent) l.returns;
            empty = l.empty;
            flows = l.flows ∙ pass-flow e s;
          }
    ]

-- led_matrix_display_buffer returns when frames leave the FIFO in 73 events or more, however many others lie between
-- them, and then every frame has gone from the FIFO to the shift register: those that were still waiting before, and
-- the 64 bytes of the buffer in their order. The last of them may still be on its way. The FIFO held no more frames
-- than it has room for.
pub display_buffer-Sends :
    (buffer : ℕ) (m : Memory) (es : List Event) (s : Ssp)
    → length s.tx ≤ 8
    → 73 ≤ moving es
    → (r : Ssp × List Event) × (led_matrix_display_buffer buffer m es s ≡ some r)
      × (r.0.sent ≡ s.sent ++ s.tx ++ map u16 (load_all m buffer 64))
      × (r.0.tx ≡ [])
unfolding led_matrix_display_buffer
display_buffer-Sends buffer m es s h k =
    let l = write_bytes_lem 64 buffer m es s h (omega arith) in
    let w = wait_sent_lem l.rest l.after (omega (arith, l.fits, l.pace)) in
    (
      (w.after, w.rest),
      rw l.returns w.returns,
      sym (append-nil w.after.sent) ∙ ap (λ t. w.after.sent ++ t) (sym w.empty) ∙ w.flows ∙ l.flows,
      w.empty,
    )
