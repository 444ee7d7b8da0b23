-- ===== src/Rit.antt =====
-- rflpc17xx/drivers/rit.c and rit.h, the repetitive interrupt timer, and rflpc17xx/drivers/dac.c and dac.h, the
-- digital to analog converter.
use rflpc.Base.{ℕ, ◌==◌, if◌then◌else◌, bit_and, bit_or}
use rflpc.Base.Word.{set_bit, set_bits_val}
use rflpc.System.{System, power, clock0, set_pin_function}
use rflpc.Interrupt.{Interrupts, pos, irq_set_handler, enable_irq}

pub record Rit : Type 0 where
  pub rimask : ℕ
  pub ricompval : ℕ
  pub rictrl : ℕ
  pub ricounter : ℕ

-- `rflpc_rit_enable`
unfoldable pub rit_enable : System → System
unfolding power
rit_enable s = power 16 s

-- `rflpc_rit_get_counter_value` and `rflpc_rit_set_counter_value`
unfoldable pub get_counter_value : Rit → ℕ
get_counter_value r = r.ricounter

unfoldable pub set_counter_value : ℕ → Rit → Rit
set_counter_value value r = record r { ricounter = value }

-- `rflpc_rit_clear_pending_interrupt`: the request, bit 0 of RICTRL, is cleared by writing a one.
unfoldable pub clear_pending_interrupt : Rit → Rit
clear_pending_interrupt r =
    let written = bit_or r.rictrl 1 in record r { rictrl = bit_and written 0xe }

-- `rflpc_rit_set_callback`: RIT_IRQn is 29. The request is cleared as well when it is written back.
unfoldable pub rit_set_callback : ℕ → ℕ → ℕ → ℕ → Rit × Interrupts → Rit × Interrupts
unfolding irq_set_handler enable_irq
rit_set_callback comp_value mask reset_on_match c (r, i) = (
  record r {
    rimask = mask;
    ricompval = comp_value;
    rictrl = if reset_on_match == 0 then r.rictrl else bit_and (set_bit r.rictrl 1) 0xe;
  },
  enable_irq 29 (irq_set_handler (pos 29) c i),
)

-- `rflpc_dac_init`
unfoldable pub dac_init : ℕ → System → System
unfolding clock0 set_pin_function
dac_init clock_divider s = clock0 22 clock_divider (set_pin_function 26 2 0 0 s)

-- `rflpc_dac_write`, on the register DACR
unfoldable pub dac_write : ℕ → ℕ → ℕ
dac_write value dacr = set_bits_val dacr 6 (bit_and value 0x3ff) 10
