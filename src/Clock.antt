-- ===== src/Clock.antt =====
-- rflpc17xx/clock.c with rflpc17xx/config/config-mbed.h: how the PLL is set up that clocks the processor. What is
-- written to PLL0CON and PLL0CFG takes effect with the feed sequence 0xAA, 0x55 only. As the manual says, the clock
-- fails when the PLL is connected before it has locked, or when it is faster than 100 MHz: `failed` keeps that.
pub mod Feed
pub mod Sequence
mod Tests
use rflpc.Base.{
  ℕ, zero, suc, ◌+◌, ◌-◌, ◌*◌, ◌/◌, ◌%◌, ◌^◌, ◌==◌, if◌then◌else◌, leb, ltb, Bool, true, false, not,
  ◌&&◌, ◌||◌, List, [], ◌∷◌, Option, none, some, ◌>>=◌, bit_and, bit_or,
}
use rflpc.Base.Bits.{bit_at}
use rflpc.Base.Word.{shl, not32, set_bit, clr_bit}

-- The registers as they were written, the two that are in effect, and what the hardware shows.
pub record Sc : Type 0 where
  pub pll0con : ℕ
  pub pll0cfg : ℕ
  pub con : ℕ
  pub cfg : ℕ
  pub fed : Bool
  pub locked : Bool
  pub scs : ℕ
  pub clksrcsel : ℕ
  pub cclkcfg : ℕ
  pub flashcfg : ℕ
  pub interrupts : Bool
  pub failed : Bool

-- `RFLPC_CLOCK_MAIN_OSCILLATOR_FREQUENCY`, `RFLPC_CLOCK_INPUT_DIVIDER` and so on
abbrev pub main_oscillator_frequency : ℕ
main_oscillator_frequency = 12000000

abbrev pub internal_oscillator_frequency : ℕ
internal_oscillator_frequency = 4000000

abbrev pub input_divider : ℕ
input_divider = 1

abbrev pub pll_multiplier : ℕ
pll_multiplier = 12

abbrev pub cpu_divider : ℕ
cpu_divider = 3

-- The clock of the processor with the settings in effect.
unfoldable pub cpu_clock : Sc → ℕ
cpu_clock s =
    let source =
      if bit_and s.clksrcsel 3 == 1
      then main_oscillator_frequency
      else internal_oscillator_frequency in
    let m = s.cfg % 2 ^ 15 + 1 in
    let n = s.cfg / 2 ^ 16 % 2 ^ 8 + 1 in
    (if bit_at s.con 1 == 1 then 2 * m * (source / n) else source) / (s.cclkcfg + 1)

unfoldable pub watch : Sc → Sc
unfolding cpu_clock
watch s = record s {
  failed = s.failed || (bit_at s.con 1 == 1 && not s.locked) || not (leb (cpu_clock s) 100000000);
}

-- A write to PLL0FEED. The PLL loses its lock when it is switched on or off, or gets another configuration.
unfoldable pub take_effect : Sc → Sc
unfolding watch
take_effect s = watch (record s {
  con = s.pll0con;
  cfg = s.pll0cfg;
  fed = false;
  locked = s.locked && s.cfg == s.pll0cfg && bit_at s.con 0 == bit_at s.pll0con 0;
})

unfoldable pub write_feed : ℕ → Sc → Sc
unfolding take_effect
write_feed v s =
    if v == 0xaa
    then record s { fed = true }
    else if v == 0x55 && s.fed
    then take_effect s
    else record s { fed = false }

-- `RFLPC_PLL0_DO_FEED`
unfoldable pub feed : Sc → Sc
unfolding write_feed
feed s = write_feed 0x55 (write_feed 0xaa s)

unfoldable pub write_clksrcsel : ℕ → Sc → Sc
unfolding watch
write_clksrcsel v s = watch (record s { clksrcsel = v })

unfoldable pub write_cclkcfg : ℕ → Sc → Sc
unfolding watch
write_cclkcfg v s = watch (record s { cclkcfg = v })

-- `LPC_SC->PLL0STAT & (1<<24)`: whether the PLL is enabled.
unfoldable pub pll_enabled : Sc → Bool
pll_enabled s = bit_at s.con 0 == 1

-- `if (LPC_SC->PLL0STAT & (1<<24))`, disconnect; then disable.
unfoldable pub pll_off : Sc → Sc
unfolding feed pll_enabled
pll_off s =
    let s₁ = if pll_enabled s then feed (record s { pll0con = clr_bit s.pll0con 1 }) else s in
    feed (record s₁ { pll0con = clr_bit s₁.pll0con 0 })

-- The main oscillator: its range, its start, and the wait for bit 6 of SCS. `ready` is what each load of the bit
-- shows once the oscillator runs.
unfoldable pub start_oscillator : Sc → Sc
start_oscillator s = record s {
  scs =
      set_bit
        (if leb 1000000 main_oscillator_frequency && leb main_oscillator_frequency 20000000
          then clr_bit s.scs 4
          else set_bit s.scs 4)
        5;
}

unfoldable pub wait_oscillator : List Bool → Sc → Option Sc
wait_oscillator [] s = none
wait_oscillator (ready ∷ l) s = elim (ready && bit_at s.scs 5 == 1) [
  | true ↦ some s
  | false ↦ wait_oscillator l s
]

unfoldable pub select_main : Sc → Sc
unfolding write_clksrcsel
select_main s = write_clksrcsel (bit_or (bit_and s.clksrcsel (not32 3)) 1) s

-- The configuration, the start of the PLL, and the divider of the processor.
unfoldable pub configure : Sc → Sc
unfolding feed write_cclkcfg
configure s =
    let s₁ =
      feed (record s { pll0cfg = bit_or (shl (input_divider - 1) 16) (pll_multiplier - 1) }) in
    let s₂ = feed (record s₁ { pll0con = set_bit s₁.pll0con 0 }) in
    write_cclkcfg (cpu_divider - 1) s₂

-- The wait for bit 26 of PLL0STAT. Each load shows whether the PLL has locked, which it may when it is enabled.
unfoldable pub wait_lock : List Bool → Sc → Option Sc
unfolding pll_enabled
wait_lock [] s = none
wait_lock (locks ∷ l) s =
    let s' = record s { locked = s.locked || (locks && pll_enabled s) } in
    elim s'.locked [ true ↦ some s' | false ↦ wait_lock l s' ]

unfoldable pub pll_connect : Sc → Sc
unfolding feed
pll_connect s = feed (record s { pll0con = set_bit s.pll0con 1 })

-- `_rflpc_system_clock` after the set-up, which rflpc_clock_get_system_clock returns.
unfoldable pub system_clock : ℕ
system_clock = 2 * pll_multiplier * (main_oscillator_frequency / input_divider) / cpu_divider

-- The flash accelerator by the system clock.
unfoldable pub flash_cfg : ℕ → ℕ → ℕ
flash_cfg clock before =
    if leb clock 20000000
    then 0x3a
    else if leb clock 40000000
    then bit_or (shl 1 12) 0x3a
    else if leb clock 60000000
    then bit_or (shl 2 12) 0x3a
    else if leb clock 80000000
    then bit_or (shl 3 12) 0x3a
    else if leb clock 100000000
    then bit_or (shl 4 12) 0x3a
    else before

-- `rflpc_clock_init`: the registers afterwards, and the system clock.
unfoldable pub clock_init : List Bool → List Bool → Sc → Option (Sc × ℕ)
clock_init ready locks s = do
  let s₁ = pll_off (record s { interrupts = false })
  s₂ ← wait_oscillator ready (start_oscillator s₁)
  s₃ ← wait_lock locks (configure (select_main s₂))
  let s₄ = pll_connect s₃
  some
      (record s₄ { flashcfg = flash_cfg system_clock s₄.flashcfg; interrupts = true }, system_clock)
