-- ===== src/Timer.antt =====
-- rflpc17xx/drivers/timer.c: the timers 0 to 3 and the one of the PWM block. `Board` has the registers of
-- each timer and those of the system that the driver writes.
pub mod Fields
mod Tests
use rflpc.Base.{ℕ, ◌+◌, ◌-◌, ◌*◌, ◌^◌, ◌%◌, ◌==◌, if◌then◌else◌, bit_and, bit_or}
use rflpc.Base.Word.{shl, not32, set_bit, clr_bit, put_field}
use rflpc.Interrupt.{Interrupts, pos, irq_set_handler, enable_irq}

-- `rflpc_timer_t`
pub data Timer : Type 0 where
  timer0 timer1 timer2 timer3 timer_pwm : Timer

-- Bit k of the interrupt register shows that match register k asks for an interrupt; a bit that is written as one is
-- cleared.
pub record Regs : Type 0 where
  pub ir : ℕ
  pub tcr : ℕ
  pub tc : ℕ
  pub pc : ℕ
  pub pr : ℕ
  pub mcr : ℕ
  pub mr : ℕ → ℕ

pub record Board : Type 0 where
  pub regs : Timer → Regs
  pub pconp : ℕ
  pub pclksel0 : ℕ
  pub pclksel1 : ℕ

-- The enumeration's value.
abbrev pub timer_index : Timer → ℕ
timer_index timer0 = 0
timer_index timer1 = 1
timer_index timer2 = 2
timer_index timer3 = 3
timer_index timer_pwm = 4

-- The registers of one timer are changed: `rflpc_timer_base(timer)->…`
abbrev pub on_timer : Timer → (Regs → Regs) → Board → Board
on_timer t f b = record b {
  regs = λ u. if timer_index u == timer_index t then f (b.regs u) else b.regs u;
}

-- `rflpc_timer_enable`
unfoldable pub enable : Timer → Board → Board
enable timer0 b = record b { pconp = set_bit b.pconp 1 }
enable timer1 b = record b { pconp = set_bit b.pconp 2 }
enable timer2 b = record b { pconp = set_bit b.pconp 22 }
enable timer3 b = record b { pconp = set_bit b.pconp 23 }
enable timer_pwm b = b

-- `rflpc_timer_disable`
unfoldable pub disable : Timer → Board → Board
disable timer0 b = record b { pconp = clr_bit b.pconp 1 }
disable timer1 b = record b { pconp = clr_bit b.pconp 2 }
disable timer2 b = record b { pconp = clr_bit b.pconp 22 }
disable timer3 b = record b { pconp = clr_bit b.pconp 23 }
disable timer_pwm b = b

-- `rflpc_timer_set_clock`
unfoldable pub set_clock : Timer → ℕ → Board → Board
set_clock timer0 divider b = record b { pclksel0 = put_field b.pclksel0 2 2 divider }
set_clock timer1 divider b = record b { pclksel0 = put_field b.pclksel0 4 2 divider }
set_clock timer2 divider b = record b { pclksel1 = put_field b.pclksel1 12 2 divider }
set_clock timer3 divider b = record b { pclksel1 = put_field b.pclksel1 14 2 divider }
set_clock timer_pwm divider b = b

-- `rflpc_timer_start`
unfoldable pub start : Timer → Board → Board
start t b = on_timer t (λ r. record r { tcr = set_bit r.tcr 0 }) b

-- `rflpc_timer_running`
unfoldable pub running : Timer → Board → ℕ
running t b = bit_and (b.regs t).tcr 1

-- `rflpc_timer_stop`
unfoldable pub stop : Timer → Board → Board
stop t b = on_timer t (λ r. record r { tcr = clr_bit r.tcr 0 }) b

-- `rflpc_timer_reset`
unfoldable pub reset : Timer → Board → Board
reset t b = on_timer t (λ r. record r { tcr = clr_bit (set_bit r.tcr 1) 1 }) b

-- `rflpc_timer_get_counter`, `rflpc_timer_get_pre_scale_counter`, `rflpc_timer_get_pre_scale_register`
unfoldable pub get_counter : Timer → Board → ℕ
get_counter t b = (b.regs t).tc

unfoldable pub get_pre_scale_counter : Timer → Board → ℕ
get_pre_scale_counter t b = (b.regs t).pc

unfoldable pub get_pre_scale_register : Timer → Board → ℕ
get_pre_scale_register t b = (b.regs t).pr

-- `rflpc_timer_set_counter`, `rflpc_timer_set_pre_scale_counter`, `rflpc_timer_set_pre_scale_register`
unfoldable pub set_counter : Timer → ℕ → Board → Board
set_counter t value b = on_timer t (λ r. record r { tc = value }) b

unfoldable pub set_pre_scale_counter : Timer → ℕ → Board → Board
set_pre_scale_counter t value b = on_timer t (λ r. record r { pc = value }) b

unfoldable pub set_pre_scale_register : Timer → ℕ → Board → Board
set_pre_scale_register t value b = on_timer t (λ r. record r { pr = value }) b

-- `rflpc_timer_set_match_value`
unfoldable pub set_match_value : Timer → ℕ → ℕ → Board → Board
set_match_value t match_register value b =
    on_timer t (λ r. record r { mr = λ k. if k == match_register then value else r.mr k }) b

-- `rflpc_timer_set_irq_on_match`
unfoldable pub set_irq_on_match : Timer → ℕ → ℕ → Board → Board
set_irq_on_match t match_register options b =
    on_timer t (λ r. record r { mcr = put_field r.mcr (match_register * 3) 3 options }) b

-- `rflpc_timer_reset_irq` and `rflpc_timer_test_irq`
unfoldable pub write_ir : ℕ → Regs → Regs
write_ir v r = record r { ir = bit_and r.ir (not32 v) }

unfoldable pub reset_irq : Timer → ℕ → Board → Board
unfolding write_ir
reset_irq t match_register b = on_timer t (λ r. write_ir (bit_or r.ir (shl 1 match_register)) r) b

unfoldable pub test_irq : Timer → ℕ → Board → ℕ
test_irq t match_register b = bit_and (b.regs t).ir (shl 1 match_register)

-- `rflpc_timer_set_callback`: TIMER0_IRQn is 1.
unfoldable pub set_callback : Timer → ℕ → Interrupts → Interrupts
unfolding enable_irq irq_set_handler
set_callback t callback i =
    enable_irq (1 + timer_index t) (irq_set_handler (pos (1 + timer_index t)) callback i)
