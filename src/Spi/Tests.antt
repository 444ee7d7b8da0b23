-- ===== src/Spi/Tests.antt =====
-- A port after its set-up.
use rflpc.Base.{[], false}
use rflpc.System.{System}
use rflpc.Spi.{Ssp}

abbrev fresh : Ssp
fresh = record {
  cr0 = 0;
  cr1 = 0;
  cpsr = 0;
  imsc = 0;
  tx = [];
  rx = [];
  sent = [];
  shifting = false;
}

abbrev off : System
off = record {
  pconp = 0;
  pclksel0 = 0;
  pclksel1 = 0;
  pincon = record { pinsel = λ k. 0; pinmode = λ k. 0; pinmode_od = λ k. 0 };
}
