-- ===== src/Pwm/Tests.antt =====
-- Runs: P2_2 is of channel 3, P1_20 of channel 2, and P0_0 has none.
use rflpc.Base.{◌≡◌, refl, arith, true, false}
use rflpc.Timer.{Board}
use rflpc.Pwm.{Pwm, pwm_enable, pwm_disable, single_edge, double_edge, channel_of}
use rflpc.Pwm.Edges.{high_at, is_enabled, single_edge-Pulses, double_edge-Shares}

abbrev board : Board
board = record {
  regs = λ t. record { ir = 0; tcr = 1; tc = 0; pc = 0; pr = 0; mcr = 0; mr = λ k. 100 };
  pconp = 0;
  pclksel0 = 0;
  pclksel1 = 0;
}

abbrev pwm : Pwm
pwm = record {
  board = board;
  pcr = 0;
  pincon = record { pinsel = λ i. 0; pinmode = λ i. 0; pinmode_od = λ i. 0 };
  pwm_running = 0;
}

single_edge-Pulses_example :
    (is_enabled 3 (pwm_enable 66 (single_edge 66 40 pwm)) ≡ true)
    × (is_enabled 3 (pwm_disable 66 (pwm_enable 66 (single_edge 66 40 pwm))) ≡ false)
    × (high_at 3 39 (pwm_enable 66 (single_edge 66 40 pwm)) ≡ true)
unfolding channel_of
single_edge-Pulses_example =
    single_edge-Pulses 66 40 39 3 pwm (omega arith) (omega arith) (omega arith) (λ e. refl)

double_edge-Shares_example : high_at 1 39 (double_edge 52 40 60 pwm) ≡ true
unfolding channel_of
double_edge-Shares_example =
    double_edge-Shares 52 40 60 39 1 pwm (omega arith) (omega arith) (omega arith) (omega arith)
      (λ e. refl)
