-- ===== src/SysTimer/Tests.antt =====
-- A millisecond at 96 MHz.
use rflpc.Base.{◌-◌, ◌*◌, ◌/◌, ◌≡◌, arith}
use rflpc.SysTimer.{SysTick, set_period}
use rflpc.SysTimer.Period.{ticks, set_period-ticks}

abbrev stopped : SysTick
stopped = record { ctrl = 0; val = 12; load = 40 }

set_period-ticks_example :
    (ticks 95000 (set_period 96000000 1000 stopped)).val ≡ 96000000 / 1000000 * 1000 - 95000
set_period-ticks_example =
    set_period-ticks 96000000 1000 95000 stopped (omega arith) (omega arith) (omega arith)
