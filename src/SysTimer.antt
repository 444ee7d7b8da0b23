-- ===== src/SysTimer.antt =====
-- rflpc17xx/drivers/sys_tick_timer.c and sys_tick_timer.h: the system tick timer. LOAD and VAL have 24 bits, and a
-- write to VAL clears it. The system clock, which clock.c computes, is an argument.
pub mod Period
mod Tests
use rflpc.Base.{ℕ, ◌+◌, ◌-◌, ◌*◌, ◌/◌, ◌%◌, ◌^◌}
use rflpc.Base.Word.{set_bit, clr_bit}
use rflpc.Interrupt.{Interrupts, negsuc, irq_set_handler}

pub record SysTick : Type 0 where
  pub ctrl : ℕ
  pub val : ℕ
  pub load : ℕ

pub record Ticking : Type 0 where
  pub sys_tick : SysTick
  pub interrupts : Interrupts

unfoldable pub write_val : ℕ → SysTick → SysTick
write_val v s = record s { val = 0 }

unfoldable pub write_load : ℕ → SysTick → SysTick
write_load v s = record s { load = v % 2 ^ 24 }

-- `rflpc_sys_timer_init`, `rflpc_sys_timer_start` and `rflpc_sys_timer_stop`
unfoldable pub sys_timer_init : SysTick → SysTick
sys_timer_init s = record s { ctrl = set_bit (set_bit s.ctrl 0) 2 }

unfoldable pub sys_timer_start : SysTick → SysTick
sys_timer_start s = record s { ctrl = set_bit s.ctrl 0 }

unfoldable pub sys_timer_stop : SysTick → SysTick
sys_timer_stop s = record s { ctrl = clr_bit s.ctrl 0 }

-- `rflpc_sys_timer_set_callback`
unfoldable pub sys_timer_set_callback : ℕ → Ticking → Ticking
unfolding irq_set_handler
sys_timer_set_callback c t = record {
  sys_tick = record {
    ctrl = set_bit t.sys_tick.ctrl 1;
    val = t.sys_tick.val;
    load = t.sys_tick.load;
  };
  interrupts = irq_set_handler (negsuc 0) c t.interrupts;
}

-- `rflpc_sys_timer_set_tick_period`
unfoldable pub set_tick_period : ℕ → SysTick → SysTick
unfolding write_val write_load
set_tick_period ticks s =
    let s₁ = record s { ctrl = clr_bit s.ctrl 0 } in
    let s₂ = write_load ticks (write_val ticks s₁) in record s₂ { ctrl = set_bit s₂.ctrl 0 }

-- `rflpc_sys_timer_set_period`
unfoldable pub set_period : ℕ → ℕ → SysTick → SysTick
unfolding set_tick_period
set_period system_clock micros_time s =
    let value = system_clock / 1000000 in
    let value₂ = value * micros_time % 2 ^ 32 in
    set_tick_period ((value₂ + (2 ^ 32 - 1)) % 2 ^ 32) s
