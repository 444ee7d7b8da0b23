-- ===== src/Pin/Tests.antt =====
-- The pins on concrete registers.
use rflpc.Pin.{Pincon}

abbrev pins : Pincon
pins = record { pinsel = λ i. 0x15; pinmode = λ i. 0; pinmode_od = λ i. 0 }
