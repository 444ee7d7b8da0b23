-- ===== src/Adc/Tests.antt =====
-- The pins P0.23 and P1.31.
use rflpc.Base.{◌≡◌, [], ◌∷◌, false, arith}
use rflpc.Base.Bits.{bit_at}
use rflpc.Adc.{Adc, burst_init, burst_start, pin_to_channel}
use rflpc.Adc.Burst.{enable_all, burst_start-picks}

abbrev reset_adc : Adc
reset_adc = record {
  pconp = 0;
  pclksel0 = 0;
  adcr = 0;
  adinten = 0x100;
  pincon = record { pinsel = λ k. 0; pinmode = λ k. 0; pinmode_od = λ k. 0 };
  interrupts = record {
    rom_interrupts = λ k. 0;
    ram_interrupts = λ k. 0;
    vtor = 0;
    global = false;
    enabled = λ k. 0;
  };
  interrupt_handler = 0;
  enabled_channels = 0;
}

-- Only the channel 5 is sampled, and channel 3 has the interrupt.
burst_start-picks_example :
    bit_at (burst_start (enable_all (63 ∷ []) (burst_init 1 5000 reset_adc))).adinten 5 ≡ 0
unfolding pin_to_channel
burst_start-picks_example =
    burst_start-picks 1 5000 (63 ∷ []) reset_adc 5 (λ e. absurd (omega (arith, e))) (omega arith)
