-- ===== src/Interrupt/Tests.antt =====
-- A table with the vectors of the ROM.
use rflpc.Base.{◌+◌, ◌≡◌, false, arith}
use rflpc.Base.Bits.{bit_at}
use rflpc.Interrupt.{Interrupts, disable_irq}
use rflpc.Interrupt.Enabling.{disable_irq_all}

abbrev at_boot : Interrupts
at_boot = record {
  rom_interrupts = λ k. 1000 + k;
  ram_interrupts = λ k. 0;
  vtor = 0;
  global = false;
  enabled = λ k. 0x0c;
}

-- Disabling the Ethernet interrupt, 28, disables the one of timer 1, 2.
disable_irq_all_example : bit_at ((disable_irq 28 at_boot).enabled 0) 2 ≡ 0
disable_irq_all_example = disable_irq_all 28 2 at_boot (omega arith) (omega arith) (omega arith)
