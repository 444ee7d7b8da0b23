-- ===== src/Interrupt.antt =====
-- rflpc17xx/interrupt.c and interrupt.h: the vector table in RAM and the enable bits of the interrupt controller.
-- Reading ISER or ICER gives the enable bits; a bit that is written as one to ISER enables, to ICER disables.
pub mod Enabling
mod Tests
use rflpc.Base.{
  ℕ, zero, suc, ◌+◌, ◌-◌, ◌*◌, ◌/◌, ◌^◌, ◌==◌, if◌then◌else◌, Bool, true, false, bit_and, bit_or,
}
use rflpc.Base.Word.{shl, shr, not32}

-- `IRQn_Type`: the exceptions of the processor have negative numbers.
pub data Irq : Type 0 where
  pos : ℕ → Irq
  negsuc : ℕ → Irq

-- A handler is its address.
pub record Interrupts : Type 0 where
  pub rom_interrupts : ℕ → ℕ
  pub ram_interrupts : ℕ → ℕ
  pub vtor : ℕ
  pub global : Bool
  pub enabled : ℕ → ℕ

-- `rflpc_irq_global_enable` and `rflpc_irq_global_disable`
unfoldable pub irq_global_enable : Interrupts → Interrupts
irq_global_enable i = record i { global = true }

unfoldable pub irq_global_disable : Interrupts → Interrupts
irq_global_disable i = record i { global = false }

-- The accesses to a word of the controller.
unfoldable pub write_iser : ℕ → ℕ → Interrupts → Interrupts
write_iser w v i = record i {
  enabled = λ k. if k == w then bit_or (i.enabled k) v else i.enabled k;
}

unfoldable pub write_icer : ℕ → ℕ → Interrupts → Interrupts
write_icer w v i = record i {
  enabled = λ k. if k == w then bit_and (i.enabled k) (not32 v) else i.enabled k;
}

-- `rflpc_irq_enable` and `rflpc_irq_disable`, for the interrupts 0 to 31, which the shift takes.
unfoldable pub enable_irq : ℕ → Interrupts → Interrupts
unfolding write_iser
enable_irq irq i = write_iser (shr irq 5) (bit_or (i.enabled (shr irq 5)) (shl 1 irq)) i

unfoldable pub disable_irq : ℕ → Interrupts → Interrupts
unfolding write_icer
disable_irq irq i = write_icer (shr irq 5) (bit_or (i.enabled (shr irq 5)) (shl 1 irq)) i

-- `rflpc_irq_set_handler`
unfoldable pub vector_of : Irq → ℕ
vector_of (pos n) = n + 16
vector_of (negsuc n) = 15 - n

unfoldable pub irq_set_handler : Irq → ℕ → Interrupts → Interrupts
unfolding vector_of
irq_set_handler irq handler i = record i {
  ram_interrupts = λ k. if k == vector_of irq then handler else i.ram_interrupts k;
}

-- `rflpc_irq_init`: the loop from `k` on, with `n` vectors left, and the function on a table of `n` vectors at the
-- address `table`.
unfoldable pub copy_vectors : ℕ → ℕ → Interrupts → Interrupts
copy_vectors zero k i = i
copy_vectors (suc n) k i =
    copy_vectors n (k + 1)
      (record i { ram_interrupts = λ j. if j == k then i.rom_interrupts k else i.ram_interrupts j })

unfoldable pub irq_init : ℕ → ℕ → Interrupts → Interrupts
unfolding copy_vectors irq_global_enable irq_global_disable
irq_init n table i =
    let i' = irq_global_disable (copy_vectors n 0 i) in
    irq_global_enable (record i' { vtor = table })
