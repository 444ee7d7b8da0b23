-- ===== src/SysTimer/Period.antt =====
-- The counter from tick to tick, and the period that it has.
use rflpc.Base.{
  ℕ, zero, suc, ◌+◌, ◌-◌, ◌*◌, ◌/◌, ◌%◌, ◌^◌, ◌≤◌, ◌<◌, ◌==◌, if◌then◌else◌, ◌≡◌, refl, ap, ◌∙◌,
  arith,
}
use rflpc.Base.Bits.{bit_at}
use rflpc.Base.Word.{set_bit, clr_bit, bit_at-set_bit}
use rflpc.SysTimer.{SysTick, set_period, set_tick_period, write_val, write_load}

-- A tick of the clock, as the manual says it: a counter that is enabled counts down, and at 0 is loaded again. The
-- interrupt is requested when the counter reaches 0.
unfoldable pub tick : SysTick → SysTick
tick s = record s {
  val = if bit_at s.ctrl 0 == 0 then s.val else if s.val == 0 then s.load else s.val - 1;
}

unfoldable pub ticks : ℕ → SysTick → SysTick
unfolding tick
ticks zero s = s
ticks (suc n) s = ticks n (tick s)

counts_down : (k : ℕ) (s : SysTick) → bit_at s.ctrl 0 ≡ 1 → k ≤ s.val → (ticks k s).val ≡ s.val - k
unfolding ticks tick
counts_down zero s on h = omega arith
counts_down (suc k) s on h =
    let now : (if bit_at s.ctrl 0 == 0 then s.val else if s.val == 0 then s.load else s.val - 1)
        ≡ s.val - 1 =
      ground arith in
    counts_down k (tick s) on (omega (arith, now)) ∙ omega (arith, now)

reloaded :
    (k : ℕ) (s : SysTick)
    → bit_at s.ctrl 0 ≡ 1
    → s.val ≡ 0
    → k ≤ s.load
    → (ticks (suc k) s).val ≡ s.load - k
unfolding ticks tick
reloaded k s on empty h =
    let now : (tick s).val ≡ s.load = ground arith in
    counts_down k (tick s) on (omega (arith, now)) ∙ ap (λ v. v - k) now

reload_value :
    (total : ℕ)
    → total ≤ 2 ^ 24
    → 0 < total
    → (total % 2 ^ 32 + (2 ^ 32 - 1)) % 2 ^ 32 % 2 ^ 24 ≡ total - 1
reload_value total fits h = omega arith

-- After rflpc_sys_timer_set_period the counter reaches 0 as many ticks later as the clock has in that number of
-- microseconds, and not before, whatever it was doing: the number is at least one and fits 24 bits.
pub set_period-ticks :
    (clock micros k : ℕ) (s : SysTick)
    → clock / 1000000 * micros ≤ 2 ^ 24
    → 0 < k
    → k ≤ clock / 1000000 * micros
    → (ticks k (set_period clock micros s)).val ≡ clock / 1000000 * micros - k
unfolding set_period set_tick_period write_val write_load
set_period-ticks clock micros zero s fits h hk = absurd (omega arith)
set_period-ticks clock micros (suc k) s fits h hk =
    let s' = set_period clock micros s in
    let total = clock / 1000000 * micros in
    let on : bit_at (set_bit (clr_bit s.ctrl 0) 0) 0 ≡ 1 =
      ground (arith, bit_at-set_bit (clr_bit s.ctrl 0) 0 0) in
    let load : s'.load ≡ total - 1 = reload_value total fits (omega arith) in
    reloaded k s' on refl (omega (arith, load)) ∙ omega (arith, load)
