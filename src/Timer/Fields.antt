-- ===== src/Timer/Fields.antt =====
-- What the operations of a timer change in the registers that timers and match registers share.
use rflpc.Base.{
  ℕ, ◌+◌, ◌-◌, ◌*◌, ◌^◌, ◌<◌, bit_and, bit_or, if◌then◌else◌, leb, ltb, ◌&&◌, ◌≡◌, ◌≢◌, arith,
}
use rflpc.Base.Bits.{
  bit_at, bit_and-mask, eq_of_bits, bit_and-lt, bit_or-lt, bit_at-bit_and, bit_at-bit_or,
  bit_at-complement, bit_at-lt, bit_at_zero,
}
use rflpc.Base.Word.{
  shl, not32, shl_one-lt, bit_and-shl_one, set_bit, clr_bit, bit_at-put_field, bit_at-set_bit,
  bit_at-clr_bit,
}
use rflpc.Timer.{
  Timer, Board, timer_index, start, running, stop, reset, set_irq_on_match, reset_irq, write_ir,
  test_irq,
}

-- A timer is running after rflpc_timer_start and is not after rflpc_timer_stop; rflpc_timer_reset leaves it
-- running or stopped as it was; and none of the three changes the state of another timer.
pub start-stop-reset :
    (t u : Timer) (b : Board)
    → timer_index u ≢ timer_index t
    → (running t (start t b) ≡ 1)
      × (running t (stop t b) ≡ 0)
      × (running t (reset t b) ≡ running t b)
      × ((start t b).regs u ≡ b.regs u)
      × ((stop t b).regs u ≡ b.regs u)
      × ((reset t b).regs u ≡ b.regs u)
unfolding running start stop reset
start-stop-reset t u b other =
    let r = (b.regs t).tcr in
    ground (
      arith,
      bit_and-mask 1 (set_bit r 0),
      bit_and-mask 1 (clr_bit r 0),
      bit_and-mask 1 (clr_bit (set_bit r 1) 1),
      bit_and-mask 1 r,
      bit_at-set_bit r 0 0,
      bit_at-clr_bit r 0 0,
      bit_at-clr_bit (set_bit r 1) 1 0,
      bit_at-set_bit r 1 0,
    )

-- rflpc_timer_set_irq_on_match (options below 8) puts the options into the three bits of the match register
-- and changes no other bit of the word, so the options of the other match registers stay.
pub irq_on_match_bits :
    (t : Timer) (b : Board) (match_register options k : ℕ)
    → match_register < 4
    → options < 8
    → k < 32
    → bit_at ((set_irq_on_match t match_register options b).regs t).mcr k ≡ (
        if leb (match_register * 3) k && ltb k (match_register * 3 + 3)
        then bit_at options (k - match_register * 3)
        else bit_at (b.regs t).mcr k)
unfolding set_irq_on_match
irq_on_match_bits t b match_register options k few small inside = ground (
  arith,
  bit_at-put_field (b.regs t).mcr (match_register * 3) 3 options k (omega arith) small inside,
)

-- rflpc_timer_reset_irq withdraws the requests of all match registers of its timer, since it writes back the bits
-- that the interrupt register shows; no request of another timer is withdrawn.
pub reset_irq_all :
    (t u : Timer) (b : Board) (match_register k : ℕ)
    → match_register < 4
    → (b.regs t).ir < 2 ^ 32
    → timer_index u ≢ timer_index t
    → (test_irq t k (reset_irq t match_register b) ≡ 0)
      × (test_irq u k (reset_irq t match_register b) ≡ test_irq u k b)
unfolding reset_irq write_ir test_irq
reset_irq_all t u b match_register k few small other =
    let r = (b.regs t).ir in
    let written = bit_or r (shl 1 match_register) in
    let left : bit_and r (not32 written) ≡ 0 =
      eq_of_bits 32 (bit_and r (not32 written)) 0 (bit_and-lt 32 r (not32 written) small)
        (omega arith)
        λ j h. ground (
          arith,
          bit_at-bit_and r (not32 written) j,
          bit_at-complement 32 written j
              (bit_or-lt 32 r (shl 1 match_register) small
                (shl_one-lt match_register (omega arith)))
              h,
          bit_at-bit_or r (shl 1 match_register) j,
          bit_at-lt r j,
          bit_at_zero j,
        ) in
    ground (arith, left, bit_and-shl_one (bit_and r (not32 written)) k, bit_at_zero k)
