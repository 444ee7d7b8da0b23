-- ===== src/Clock/Sequence.antt =====
-- The clock on its way through rflpc_clock_init.
use rflpc.Base.{
  ℕ, ◌==◌, Bool, true, false, ◌&&◌, ◌||◌, List, [], ◌∷◌, some, bit_and, bit_or, ◌≡◌, refl, ap, ap₂,
  ◌∙◌, ◌⊎◌, inl, inr, Bool-cases, arith,
}
use rflpc.Base.Bits.{bit_at, bit_at-bit_or, bit_at-bit_and, bit_and-mask, bit_at-lt}
use rflpc.Base.Word.{not32, set_bit, clr_bit, bit_at-set_bit}
use rflpc.Clock.{
  Sc, cpu_clock, watch, take_effect, write_feed, feed, write_clksrcsel, write_cclkcfg, pll_enabled,
  pll_off, start_oscillator, wait_oscillator, select_main, configure, wait_lock, pll_connect,
  clock_init, system_clock, flash_cfg,
}
use rflpc.Clock.Feed.{
  watch-keeps, fed_state, feed_lem, feed-keeps, Off, pll_off_lem, enabled_bit, three, IsBooted,
}

-- Some load shows `true`.
abbrev pub Shown : List Bool → Type 0
Shown [] = ⊥
Shown (b ∷ l) = (b ≡ true) ⊎ Shown l

wait_oscillator_lem :
    (l : List Bool) (s : Sc) → Shown l → bit_at s.scs 5 ≡ 1 → wait_oscillator l s ≡ some s
unfolding wait_oscillator
wait_oscillator_lem [] s h on = elim h [ ]
wait_oscillator_lem (true ∷ l) s h on = rw (on, wait_oscillator) refl
wait_oscillator_lem (false ∷ l) s (inl e) on = absurd (ground arith)
wait_oscillator_lem (false ∷ l) s (inr h) on = wait_oscillator_lem l s h on

wait_lock_lem :
    (l : List Bool) (s : Sc)
    → Shown l
    → pll_enabled s ≡ true
    → wait_lock l s ≡ some (record s { locked = true })
unfolding wait_lock
wait_lock_lem [] s h on = elim h [ ]
wait_lock_lem (b ∷ l) s h on = elim (Bool-cases (s.locked || (b && pll_enabled s))) [
  | inl t ↦ rw (t, wait_lock) (rw t refl)
  | inr t ↦
      let later : Shown l = elim h [ inl e ↦ absurd (ground (arith, e, on, t)) | inr g ↦ g ] in
      rw (t, wait_lock) (rw t (wait_lock_lem l (record s { locked = false }) later on))
]

main_selected : (v : ℕ) → bit_and (bit_or (bit_and v (not32 3)) 1) 3 ≡ 1
main_selected v =
    let x = bit_or (bit_and v (not32 3)) 1 in
    bit_and-mask 2 x
    ∙ ground (
      arith,
      bit_at-bit_or (bit_and v (not32 3)) 1 0,
      bit_at-bit_or (bit_and v (not32 3)) 1 1,
      bit_at-bit_and v (not32 3) 1,
      bit_at-lt (bit_and v (not32 3)) 0,
      bit_at-lt v 1,
    )

-- The PLL runs with its configuration, and is not connected.
record Configured (s : Sc) : Type 0 where
  con : s.con ≡ 1
  written : s.pll0con ≡ 1
  cfg : s.cfg ≡ 11
  written_cfg : s.pll0cfg ≡ 11
  divider : s.cclkcfg ≡ 2
  source : bit_and s.clksrcsel 3 ≡ 1
  failed : s.failed ≡ false

select_main_lem : (s : Sc) → Off s → Off (select_main s) × (bit_and (select_main s).clksrcsel 3 ≡ 1)
unfolding select_main write_clksrcsel watch
select_main_lem s off =
    let s' = record s { clksrcsel = bit_or (bit_and s.clksrcsel (not32 3)) 1 } in
    (
      record {
        con = off.con;
        written = off.written;
        cfg = off.cfg;
        failed = watch-keeps s' (ap (λ c. bit_at c 1) off.con) ∙ off.failed;
      },
      main_selected s.clksrcsel,
    )

configuration : bit_or 0 11 ≡ 11
configuration = refl

configure_lem : (s : Sc) → Off s → bit_and s.clksrcsel 3 ≡ 1 → Configured (configure s)
unfolding configure feed write_feed take_effect write_cclkcfg watch set_bit
configure_lem s off source =
    let s₁ = record s { pll0cfg = 11 } in
    let s₂ = record (feed s₁) { pll0con = set_bit s.pll0con 0 } in
    let s₃ = record (feed s₂) { cclkcfg = 2 } in
    let enabled : set_bit s.pll0con 0 ≡ 1 = ap (λ c. set_bit c 0) off.written in
    record {
      con = enabled;
      written = enabled;
      cfg = refl;
      written_cfg = refl;
      divider = refl;
      source = source;
      failed =
          watch-keeps s₃ (ap (λ c. bit_at c 1) enabled)
          ∙ feed-keeps s₂ (ap (λ c. bit_at c 1) enabled)
          ∙ feed-keeps s₁ (ap (λ c. bit_at c 1) off.written)
          ∙ off.failed;
    }

record Running (s : Sc) : Type 0 where
  clock : cpu_clock s ≡ 96000000
  failed : s.failed ≡ false

running_clock :
    (s : Sc)
    → s.con ≡ 3
    → s.cfg ≡ 11
    → s.cclkcfg ≡ 2
    → bit_and s.clksrcsel 3 ≡ 1
    → cpu_clock s ≡ 96000000
unfolding cpu_clock
running_clock s con cfg divider source =
    let on : bit_at s.con 1 ≡ 1 = ap (λ c. bit_at c 1) con in rw (on, cfg, divider, source) refl

watch-fine :
    (s : Sc)
    → cpu_clock s ≡ 96000000
    → s.locked ≡ true
    → s.failed ≡ false
    → (watch s).failed ≡ false
unfolding watch
watch-fine s clock locked good = rw (clock, locked, good) (ground arith)

pll_connect_lem : (s : Sc) → Configured s → Running (pll_connect (record s { locked = true }))
unfolding pll_connect
pll_connect_lem s c =
    let s' = fed_state (record s { locked = true; pll0con = set_bit s.pll0con 1 }) in
    let connected : set_bit s.pll0con 1 ≡ 3 = ap (λ v. set_bit v 1) c.written ∙ three in
    let clock = running_clock s' connected c.written_cfg c.divider c.source in
    let same : (s.cfg == s.pll0cfg) ≡ true = ground (arith, c.cfg, c.written_cfg) in
    let on : (bit_at s.con 0 == bit_at (set_bit s.pll0con 1) 0) ≡ true =
      ap₂ (λ (a b : ℕ). bit_at a 0 == bit_at b 0) c.con connected in
    let locked : s'.locked ≡ true = rw (same, on) refl in
    let fed = feed_lem (record s { locked = true; pll0con = set_bit s.pll0con 1 }) in
    record {
      clock = ap cpu_clock fed ∙ clock;
      failed = ap (λ (t : Sc). t.failed) fed ∙ watch-fine s' clock locked c.failed;
    }

start_oscillator_lem :
    (s : Sc) → Off s → Off (start_oscillator s) × (bit_at (start_oscillator s).scs 5 ≡ 1)
unfolding start_oscillator
start_oscillator_lem s off = (
  record { con = off.con; written = off.written; cfg = off.cfg; failed = off.failed },
  ground (arith, bit_at-set_bit (clr_bit s.scs 4) 5 5),
)

full_speed : system_clock ≡ 96000000
unfolding system_clock
full_speed = refl

flash_for : (before : ℕ) → flash_cfg system_clock before ≡ 0x403a
unfolding flash_cfg system_clock
flash_for before = refl

same_clock :
    (s : Sc) (f : ℕ) (i : Bool)
    → cpu_clock (record s { flashcfg = f; interrupts = i }) ≡ cpu_clock s
unfolding cpu_clock
same_clock s f i = refl

-- From a clock that has not failed, with the PLL off, enabled or connected, rflpc_clock_init returns once the
-- oscillator has shown that it is ready and the PLL that it has locked. Then the processor's clock is the 96 MHz that
-- the function keeps as the system clock, and it has failed at no step on the way; interrupts are enabled, and the
-- flash accelerator is the one for clocks of 80 to 100 MHz.
pub clock_init-Runs :
    (ready locks : List Bool) (s : Sc)
    → IsBooted s
    → Shown ready
    → Shown locks
    → (s' : Sc) × (clock_init ready locks s ≡ some (s', 96000000))
      × (cpu_clock s' ≡ 96000000)
      × (s'.failed ≡ false)
      × (s'.interrupts ≡ true)
      × (s'.flashcfg ≡ 0x403a)
unfolding clock_init
clock_init-Runs ready locks s booted shown_ready shown_locks =
    let off = pll_off_lem (record s { interrupts = false }) booted in
    let s₁ = start_oscillator (pll_off (record s { interrupts = false })) in
    let (off₁, on) = start_oscillator_lem (pll_off (record s { interrupts = false })) off in
    let (off₂, source) = select_main_lem s₁ off₁ in
    let c = configure_lem (select_main s₁) off₂ source in
    let s₃ = configure (select_main s₁) in
    let r = pll_connect_lem s₃ c in
    let s₄ = pll_connect (record s₃ { locked = true }) in
    let done = record s₄ { flashcfg = flash_cfg system_clock s₄.flashcfg; interrupts = true } in
    (
      done,
      rw (wait_oscillator_lem ready s₁ shown_ready on) (
          rw (wait_lock_lem locks s₃ shown_locks (enabled_bit s₃ 1 c.con))
            (ap (λ (c : ℕ). some (done, c)) full_speed)),
      same_clock s₄ (flash_cfg system_clock s₄.flashcfg) true ∙ r.clock,
      r.failed,
      refl,
      flash_for s₄.flashcfg,
    )
