-- ===== src/Pwm/Setup.antt =====
-- Which pins rflpc_pwm_init accepts, and how the period is changed.
use rflpc.Base.{
  ℕ, ◌+◌, ◌*◌, ◌/◌, ◌<◌, ◌≤◌, ltb, ◌%◌, ◌==◌, if◌then◌else◌, none, some, ◌≡◌, refl, ◌∙◌, Bool-cases,
  inl, inr, arith,
}
use rflpc.Base.Integers.{pos, negsuc}
use rflpc.Base.Bits.{bit_at, bit_and-mask}
use rflpc.Base.Word.{set_bit, clr_bit, bit_at-set_bit}
use rflpc.Pin.Fields.{pin_set_bits}
use rflpc.Timer.{timer_pwm, running, start, stop, reset, set_match_value}
use rflpc.Pwm.{
  Pwm, channel_of, pwm_function, pwm_init, write_mr, pwm_start, pwm_stop, pwm_reset, pwm_set_period,
}
use rflpc.Pwm.Edges.{channel_number, mr_of}

-- A pin of a channel takes function 2 on port 1, 1 on port 2 and 3 on port 3.
abbrev pub function_on_port : ℕ → ℕ
function_on_port pin = if ltb pin 64 then 2 else if ltb pin 96 then 1 else 3

function_of_channel :
    (pin : ℕ)
    → pwm_function pin
      ≡ (if channel_number (channel_of pin) == 0 then none else some (function_on_port pin))
unfolding pwm_function channel_of
function_of_channel pin = ground arith

channel-pin-lt : (pin : ℕ) → 1 ≤ channel_number (channel_of pin) → pin < 160
unfolding channel_of
channel-pin-lt pin h = ground arith

-- rflpc_pwm_init returns 0 for a pin of a channel and -1 for any other. For a pin of a channel the two bits of that
-- pin in the PINSEL registers hold its PWM function, the bits of all other pins stay, and the counter is reset when
-- it meets MR0; for any other pin no PINSEL register changes.
pub pwm_init-Selects :
    (system_clock pin i k : ℕ) (p : Pwm)
    → k < 32
    → let n = channel_number (channel_of pin) in
      let (result, q) = pwm_init system_clock pin p in
      (result ≡ (if n == 0 then negsuc 0 else pos 0))
      × (bit_at (q.pincon.pinsel i) k ≡ (
          if n == 0
          then bit_at (p.pincon.pinsel i) k
          else if i * 16 + k / 2 == pin
          then bit_at (function_on_port pin) (k % 2)
          else bit_at (p.pincon.pinsel i) k))
      × (bit_at (q.board.regs timer_pwm).mcr 1
          ≡ (if n == 0 then bit_at (p.board.regs timer_pwm).mcr 1 else 1))
unfolding pwm_init
pwm_init-Selects system_clock pin i k p h =
    elim (Bool-cases (channel_number (channel_of pin) == 0)) [
      | inl e ↦
          let f : pwm_function pin ≡ none = function_of_channel pin ∙ ground arith in
          rw (e, f, pwm_init) (refl, refl, refl)
      | inr e ↦
          let small : function_on_port pin % 4 ≡ function_on_port pin = ground arith in
          let f : pwm_function pin ≡ some (function_on_port pin) =
            function_of_channel pin ∙ ground arith in
          rw (e, f, pwm_init)
            (
              refl,
              ground (
                arith,
                (pin_set_bits pin (function_on_port pin) 0 0 p.pincon i k
                    (channel-pin-lt pin (ground arith)) h).0,
                small,
              ),
              ground (arith, bit_at-set_bit (p.board.regs timer_pwm).mcr 1 1),
            )
    ]

-- rflpc_pwm_set_period puts the period into MR0 and changes no other match register, whether the block runs or not,
-- and it runs afterwards as it did before.
pub pwm_set_period-Keeps :
    (period k : ℕ) (p : Pwm)
    → (mr_of k (pwm_set_period period p) ≡ (if k == 0 then period else mr_of k p))
      × (running timer_pwm (pwm_set_period period p).board ≡ running timer_pwm p.board)
unfolding pwm_set_period pwm_start pwm_stop pwm_reset write_mr set_match_value start stop reset
    running
pwm_set_period-Keeps period k p =
    let r = (p.board.regs timer_pwm).tcr in
    let again = clr_bit (set_bit (clr_bit r 0) 1) 1 in
    elim (Bool-cases (running timer_pwm p.board == 0)) [
      | inl e ↦ rw e (refl, refl)
      | inr e ↦ rw e (
        refl,
        ground (
          arith,
          e,
          bit_and-mask 1 r,
          bit_and-mask 1 (set_bit again 0),
          bit_at-set_bit again 0 0,
        ),
      )
    ]
