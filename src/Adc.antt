-- ===== src/Adc.antt =====
-- rflpc17xx/drivers/adc.c and adc.h: the analog to digital converter. A data register is what the loads of it show,
-- one after the other; where the list ends, the call still waits.
pub mod Values
pub mod Burst
mod Tests
use rflpc.Base.{
  ℕ, ◌+◌, ◌-◌, ◌*◌, ◌/◌, zero, suc, ◌%◌, ◌^◌, ◌==◌, if◌then◌else◌, List, [], ◌∷◌, Option, none,
  some, ◌>>=◌, Bool, true, false, bit_and, bit_or,
}
use rflpc.Base.Word.{shl, shr, u8, u16, set_bit, set_bits_val}
use rflpc.Pin.{Pincon, pin_set}
use rflpc.Interrupt.{Interrupts, pos, irq_set_handler, enable_irq}

-- The registers, and `rflpc_adc_burst_control`. The handler 0 is NULL.
pub record Adc : Type 0 where
  pub pconp : ℕ
  pub pclksel0 : ℕ
  pub adcr : ℕ
  pub adinten : ℕ
  pub pincon : Pincon
  pub interrupts : Interrupts
  pub interrupt_handler : ℕ
  pub enabled_channels : ℕ

-- `_pin_to_channel`: 8 is ADC_INVALID_CHANNEL.
unfoldable pub pin_to_channel : ℕ → ℕ
pin_to_channel pin =
    if pin == 23
    then 0
    else if pin == 24
    then 1
    else if pin == 25
    then 2
    else if pin == 26
    then 3
    else if pin == 62
    then 4
    else if pin == 63
    then 5
    else if pin == 3
    then 6
    else if pin == 2
    then 7
    else 8

-- `rflpc_adc_init`
unfoldable pub adc_init : ℕ → ℕ → Adc → Adc
unfolding pin_to_channel
adc_init pin clock_divider a = record a {
  pincon = pin_set pin 3 0 0 a.pincon;
  pconp = set_bit a.pconp 12;
  pclksel0 = set_bits_val a.pclksel0 24 3 2;
  adcr = set_bit (set_bit (set_bits_val a.adcr 8 clock_divider 8) (pin_to_channel pin)) 21;
}

-- `rflpc_adc_burst_init`
unfoldable pub burst_init : ℕ → ℕ → Adc → Adc
unfolding enable_irq irq_set_handler
burst_init clock_divider handler a =
    let a₁ = record a {
      pconp = set_bit a.pconp 12;
      pclksel0 = set_bits_val a.pclksel0 24 3 2;
      adcr = set_bits_val a.adcr 8 clock_divider 8;
    } in
    let a₂ = if handler == 0 then a₁ else record a₁ {
      interrupt_handler = handler;
      interrupts = enable_irq 22 (irq_set_handler (pos 22) handler a₁.interrupts);
    } in
    record a₂ { enabled_channels = 0 }

-- `rflpc_adc_burst_enable`
unfoldable pub burst_enable : ℕ → Adc → Adc
unfolding pin_to_channel
burst_enable pin a = record a {
  pincon = pin_set pin 3 0 0 a.pincon;
  adcr = set_bit a.adcr (pin_to_channel pin);
  enabled_channels = u8 (bit_or a.enabled_channels (pin_to_channel pin));
}

-- The loop of `rflpc_adc_burst_start`: `mask`, and one more than `channel`. The result is one more than the channel
-- that the loop ends with, and 0 where that is negative.
unfoldable pub find_channel : ℕ → ℕ → ℕ → ℕ
find_channel enabled mask zero = 0
find_channel enabled mask (suc channel) =
    let next = find_channel enabled (shr mask 2) channel in
    if bit_and enabled mask == mask then suc channel else next

-- `rflpc_adc_burst_start`
unfoldable pub with_interrupt : ℕ → Adc → Adc
with_interrupt zero a = a
with_interrupt (suc channel) a = record a { adinten = set_bit a.adinten channel }

unfoldable pub burst_start : Adc → Adc
unfolding find_channel with_interrupt
burst_start a =
    let a₁ =
      if a.interrupt_handler == 0
      then a
      else with_interrupt (find_channel a.enabled_channels 0x80 8) a in
    record a₁ { adcr = set_bit (set_bit a₁.adcr 21) 16 }

-- `rflpc_adc_sample`
unfoldable pub adc_sample : ℕ → Adc → Adc
adc_sample pin a = record a { adcr = set_bits_val a.adcr 24 1 3 }

-- The wait of both reads, which ends with the load after the one that shows bit 31.
unfoldable pub wait_done : List ℕ → Option ℕ
wait_done [] = none
wait_done (v ∷ []) = none
wait_done (v ∷ w ∷ l) =
    let rest = wait_done (w ∷ l) in if bit_and v 0x80000000 == 0x80000000 then some w else rest

-- The result of `rflpc_adc_read` from the data register.
unfoldable pub result_of : ℕ → ℕ
result_of addr =
    let result = u16 (bit_and (shr addr 4) 0xfff) in
    if bit_and addr 0x40000000 == 0 then result else u16 (set_bit result 15)

-- The result of `rflpc_adc_read_global` from the global data register.
unfoldable pub global_result_of : ℕ → ℕ
global_result_of adgdr =
    let result = u16 (bit_and (shr adgdr 4) 0xfff) in
    let result₂ = u16 (bit_or result (bit_and (shr adgdr 24) 0x07)) in
    if bit_and adgdr 0x40000000 == 0 then result₂ else u16 (set_bit result₂ 15)

-- `rflpc_adc_read`, on the data register of each channel, and `rflpc_adc_read_global`
unfoldable pub adc_read : ℕ → (ℕ → List ℕ) → Option ℕ
unfolding pin_to_channel wait_done result_of
adc_read pin addr = do v ← wait_done (addr (pin_to_channel pin)); some (result_of v)

unfoldable pub adc_read_global : List ℕ → Option ℕ
unfolding wait_done global_result_of
adc_read_global adgdr = do v ← wait_done adgdr; some (global_result_of v)
