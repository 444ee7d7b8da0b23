-- ===== src/Timer/Tests.antt =====
-- The timers on a concrete board.
use rflpc.Timer.{Board}

abbrev board : Board
board = record {
  regs = λ t. record { ir = 0; tcr = 1; tc = 5; pc = 0; pr = 9; mcr = 0x49; mr = λ k. 100 };
  pconp = 6;
  pclksel0 = 0;
  pclksel1 = 0;
}
