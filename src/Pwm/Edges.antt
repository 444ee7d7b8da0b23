-- ===== src/Pwm/Edges.antt =====
-- The pulses of the channels.
use rflpc.Base.{
  ℕ, ◌+◌, ◌-◌, ◌<◌, ◌≤◌, ◌==◌, if◌then◌else◌, ltb, leb, Bool, true, false, ◌&&◌, ◌||◌, ◌≡◌, ◌≢◌,
  refl, ◌∙◌, arith,
}
use rflpc.Base.Bits.{bit_at}
use rflpc.Base.Word.{bit_at-set_bit, bit_at-clr_bit}
use rflpc.Timer.{timer_pwm, set_match_value}
use rflpc.Pwm.{
  Pwm, PwmChannel, pwm1, pwm2, pwm3, pwm4, pwm5, pwm6, no_pwm, channel_of, write_mr, set_pcr,
  clr_pcr, enable_channel, disable_channel, pwm_enable, pwm_disable, single_edge, single_edge_of,
  double_edge, double_edge_of,
}

-- The number of a channel, 0 for none.
abbrev pub channel_number : PwmChannel → ℕ
channel_number pwm1 = 1
channel_number pwm2 = 2
channel_number pwm3 = 3
channel_number pwm4 = 4
channel_number pwm5 = 5
channel_number pwm6 = 6
channel_number no_pwm = 0

abbrev pub mr_of : ℕ → Pwm → ℕ
mr_of k p = (p.board.regs timer_pwm).mr k

-- The output at a tick of the period, as the manual has it: match register n ends the pulse of channel n. In single
-- edge mode the pulse starts with the period, in double edge mode match register n - 1 starts it.
unfoldable pub high_at : ℕ → ℕ → Pwm → Bool
high_at n t p =
    let rise = mr_of (n - 1) p in
    let fall = mr_of n p in
    if n == 1 || bit_at p.pcr n == 0
    then ltb t fall
    else if leb rise fall
    then leb rise t && ltb t fall
    else ltb t fall || leb rise t

number-lt : (c : PwmChannel) → channel_number c < 7
number-lt pwm1 = omega arith
number-lt pwm2 = omega arith
number-lt pwm3 = omega arith
number-lt pwm4 = omega arith
number-lt pwm5 = omega arith
number-lt pwm6 = omega arith
number-lt no_pwm = omega arith

unfoldable pub is_enabled : ℕ → Pwm → Bool
is_enabled n p = bit_at p.pcr (8 + n) == 1

pcr_high :
    (bit t d : ℕ) (p : Pwm)
    → 7 ≤ bit
    → bit < 32
    → d < 7
    → (high_at d t (set_pcr bit p) ≡ high_at d t p) × (high_at d t (clr_pcr bit p) ≡ high_at d t p)
unfolding high_at set_pcr clr_pcr
pcr_high bit t d p high some small =
    ground (arith, bit_at-set_bit p.pcr bit d, bit_at-clr_bit p.pcr bit d)

enable_high :
    (c : PwmChannel) (t d : ℕ) (p : Pwm) → d < 7 → high_at d t (enable_channel c p) ≡ high_at d t p
unfolding enable_channel
enable_high pwm1 t d p h = (pcr_high 9 t d p (omega arith) (omega arith) h).0
enable_high pwm2 t d p h = (pcr_high 10 t d p (omega arith) (omega arith) h).0
enable_high pwm3 t d p h = (pcr_high 11 t d p (omega arith) (omega arith) h).0
enable_high pwm4 t d p h = (pcr_high 12 t d p (omega arith) (omega arith) h).0
enable_high pwm5 t d p h = (pcr_high 13 t d p (omega arith) (omega arith) h).0
enable_high pwm6 t d p h = (pcr_high 14 t d p (omega arith) (omega arith) h).0
enable_high no_pwm t d p h = refl

-- Enabling or disabling a channel changes its own bit only.
enable_bits :
    (c : PwmChannel) (d : ℕ) (p : Pwm)
    → 1 ≤ channel_number c
    → d < 7
    → (is_enabled d (enable_channel c p) ≡ (if d == channel_number c then true else is_enabled d p))
      × (is_enabled d (disable_channel c p)
          ≡ (if d == channel_number c then false else is_enabled d p))
unfolding is_enabled enable_channel disable_channel set_pcr clr_pcr
enable_bits pwm1 d p some h =
    ground (arith, bit_at-set_bit p.pcr 9 (8 + d), bit_at-clr_bit p.pcr 9 (8 + d))
enable_bits pwm2 d p some h =
    ground (arith, bit_at-set_bit p.pcr 10 (8 + d), bit_at-clr_bit p.pcr 10 (8 + d))
enable_bits pwm3 d p some h =
    ground (arith, bit_at-set_bit p.pcr 11 (8 + d), bit_at-clr_bit p.pcr 11 (8 + d))
enable_bits pwm4 d p some h =
    ground (arith, bit_at-set_bit p.pcr 12 (8 + d), bit_at-clr_bit p.pcr 12 (8 + d))
enable_bits pwm5 d p some h =
    ground (arith, bit_at-set_bit p.pcr 13 (8 + d), bit_at-clr_bit p.pcr 13 (8 + d))
enable_bits pwm6 d p some h =
    ground (arith, bit_at-set_bit p.pcr 14 (8 + d), bit_at-clr_bit p.pcr 14 (8 + d))
enable_bits no_pwm d p some h = absurd (omega (arith, some))

-- The pulses after match register n of a channel in single edge mode is written.
single_high :
    (n width t d : ℕ) (p : Pwm)
    → 1 ≤ n
    → n < 7
    → 1 ≤ d
    → d < 7
    → (d ≡ n + 1 → bit_at p.pcr d ≡ 0)
    → high_at d t (write_mr n width (clr_pcr n p)) ≡ (if d == n then ltb t width else high_at d t p)
unfolding high_at clr_pcr write_mr set_match_value
single_high n width t d p low few some small next = ground (arith, bit_at-clr_bit p.pcr n d, next)

first_high :
    (width t d : ℕ) (p : Pwm)
    → 1 ≤ d
    → (d ≡ 2 → bit_at p.pcr d ≡ 0)
    → high_at d t (write_mr 1 width p) ≡ (if d == 1 then ltb t width else high_at d t p)
unfolding high_at write_mr set_match_value
first_high width t d p some next = ground (arith, next)

single_of-high :
    (c : PwmChannel) (width t d : ℕ) (p : Pwm)
    → 1 ≤ channel_number c
    → 1 ≤ d
    → d < 7
    → (d ≡ channel_number c + 1 → bit_at p.pcr d ≡ 0)
    → high_at d t (single_edge_of c width p)
      ≡ (if d == channel_number c then ltb t width else high_at d t p)
unfolding single_edge_of
single_of-high pwm1 width t d p low some small next = first_high width t d p some next
single_of-high pwm2 width t d p low some small next =
    single_high 2 width t d p (omega arith) (omega arith) some small next
single_of-high pwm3 width t d p low some small next =
    single_high 3 width t d p (omega arith) (omega arith) some small next
single_of-high pwm4 width t d p low some small next =
    single_high 4 width t d p (omega arith) (omega arith) some small next
single_of-high pwm5 width t d p low some small next =
    single_high 5 width t d p (omega arith) (omega arith) some small next
single_of-high pwm6 width t d p low some small next =
    single_high 6 width t d p (omega arith) (omega arith) some small next
single_of-high no_pwm width t d p low some small next = absurd (omega (arith, low))

-- For a pin of channel n: rflpc_pwm_single_edge, then rflpc_pwm_enable, switch the output of the channel on, and it
-- is high in the first `width` ticks of the period; rflpc_pwm_disable switches the output off again. The pulses of
-- every other channel d stay as they were, the next one's under the condition that it is in single edge mode.
pub single_edge-Pulses :
    (pin width t d : ℕ) (p : Pwm)
    → 1 ≤ channel_number (channel_of pin)
    → 1 ≤ d
    → d < 7
    → (d ≡ channel_number (channel_of pin) + 1 → bit_at p.pcr d ≡ 0)
    → let n = channel_number (channel_of pin) in
      let q = pwm_enable pin (single_edge pin width p) in
      (is_enabled n q ≡ true)
      × (is_enabled n (pwm_disable pin q) ≡ false)
      × (high_at d t q ≡ (if d == n then ltb t width else high_at d t p))
unfolding single_edge pwm_enable pwm_disable
single_edge-Pulses pin width t d p low some small next =
    let c = channel_of pin in
    let n = channel_number c in
    let q = single_edge_of c width p in
    let few : n < 7 = number-lt c in
    (
      (enable_bits c n q low few).0 ∙ ground arith,
      (enable_bits c n (enable_channel c q) low few).1 ∙ ground arith,
      enable_high c t d q small ∙ single_of-high c width t d p low some small next,
    )

double_high :
    (n high_edge low_edge t d : ℕ) (p : Pwm)
    → 2 ≤ n
    → n < 7
    → 1 ≤ d
    → d < 7
    → high_edge ≤ low_edge
    → (d ≢ n → bit_at p.pcr d ≡ 0)
    → high_at d t (write_mr n low_edge (write_mr (n - 1) high_edge (set_pcr n p))) ≡ (
        if d == n
        then leb high_edge t && ltb t low_edge
        else if d + 1 == n
        then ltb t high_edge
        else high_at d t p)
unfolding high_at set_pcr write_mr set_match_value
double_high n high_edge low_edge t d p low few some small ordered single =
    ground (arith, bit_at-set_bit p.pcr n d, single)

double_of-high :
    (c : PwmChannel) (high_edge low_edge t d : ℕ) (p : Pwm)
    → 2 ≤ channel_number c
    → 1 ≤ d
    → d < 7
    → high_edge ≤ low_edge
    → (d ≢ channel_number c → bit_at p.pcr d ≡ 0)
    → high_at d t (double_edge_of c high_edge low_edge p) ≡ (
        if d == channel_number c
        then leb high_edge t && ltb t low_edge
        else if d + 1 == channel_number c
        then ltb t high_edge
        else high_at d t p)
unfolding double_edge_of
double_of-high pwm1 high_edge low_edge t d p low some small ordered single =
    absurd (omega (arith, low))
double_of-high pwm2 high_edge low_edge t d p low some small ordered single =
    double_high 2 high_edge low_edge t d p (omega arith) (omega arith) some small ordered single
double_of-high pwm3 high_edge low_edge t d p low some small ordered single =
    double_high 3 high_edge low_edge t d p (omega arith) (omega arith) some small ordered single
double_of-high pwm4 high_edge low_edge t d p low some small ordered single =
    double_high 4 high_edge low_edge t d p (omega arith) (omega arith) some small ordered single
double_of-high pwm5 high_edge low_edge t d p low some small ordered single =
    double_high 5 high_edge low_edge t d p (omega arith) (omega arith) some small ordered single
double_of-high pwm6 high_edge low_edge t d p low some small ordered single =
    double_high 6 high_edge low_edge t d p (omega arith) (omega arith) some small ordered single
double_of-high no_pwm high_edge low_edge t d p low some small ordered single =
    absurd (omega (arith, low))

-- For a pin of channel n from 2 on and edges in order: after rflpc_pwm_double_edge the output of the channel is high
-- from `high_edge` up to `low_edge`. The match register that holds the high edge is the one of channel n - 1: a pulse
-- of that channel in single edge mode is then one of `high_edge` ticks. The pulses of all other channels in single
-- edge mode stay as they were.
pub double_edge-Shares :
    (pin high_edge low_edge t d : ℕ) (p : Pwm)
    → let n = channel_number (channel_of pin) in
      2 ≤ n
      → 1 ≤ d
      → d < 7
      → high_edge ≤ low_edge
      → (d ≢ n → bit_at p.pcr d ≡ 0)
      → high_at d t (double_edge pin high_edge low_edge p) ≡ (
          if d == n
          then leb high_edge t && ltb t low_edge
          else if d + 1 == n
          then ltb t high_edge
          else high_at d t p)
unfolding double_edge
double_edge-Shares pin high_edge low_edge t d p =
    double_of-high (channel_of pin) high_edge low_edge t d p
