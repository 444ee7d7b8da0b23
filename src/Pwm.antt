-- ===== src/Pwm.antt =====
-- rflpc17xx/drivers/pwm.c: pulse width modulation. The block PWM1 is the timer `timer_pwm` of Timer, whose match
-- registers 0 to 6 are MR0 to MR6, with the control register PCR. A pin is written `port * 32 + pin`.
pub mod Edges
pub mod Setup
mod Tests
use rflpc.Base.{ℕ, ◌+◌, ◌*◌, ◌/◌, ◌==◌, if◌then◌else◌, ◌||◌, Option, none, some}
use rflpc.Base.Integers.{ℤ, pos, negsuc}
use rflpc.Base.Word.{set_bit, clr_bit, set_bits_val}
use rflpc.Pin.{Pincon, pin_set}
use rflpc.System.{cclk_8}
use rflpc.Timer.{Board, timer_pwm, on_timer, set_match_value, start, stop, reset, running}

-- The registers, and `_pwm_running`.
pub record Pwm : Type 0 where
  pub board : Board
  pub pcr : ℕ
  pub pincon : Pincon
  pub pwm_running : ℕ

-- The cases `PWM1_PINS` to `PWM6_PINS`, and the default.
pub data PwmChannel : Type 0 where
  pwm1 pwm2 pwm3 pwm4 pwm5 pwm6 no_pwm : PwmChannel

unfoldable pub channel_of : ℕ → PwmChannel
channel_of pin =
    if pin == 50 || pin == 64
    then pwm1
    else if pin == 52 || pin == 65 || pin == 121
    then pwm2
    else if pin == 53 || pin == 66 || pin == 122
    then pwm3
    else if pin == 55 || pin == 67
    then pwm4
    else if pin == 56 || pin == 68
    then pwm5
    else if pin == 58 || pin == 69
    then pwm6
    else no_pwm

-- The function that the switch of `rflpc_pwm_init` gives to the pin.
unfoldable pub pwm_function : ℕ → Option ℕ
pwm_function pin =
    if pin == 50 || pin == 52 || pin == 53 || pin == 55 || pin == 56 || pin == 58
    then some 2
    else if pin == 64 || pin == 65 || pin == 66 || pin == 67 || pin == 68 || pin == 69
    then some 1
    else if pin == 121 || pin == 122
    then some 3
    else none

-- `rflpc_pwm_init`
unfoldable pub pwm_init : ℕ → ℕ → Pwm → ℤ × Pwm
unfolding pwm_function
pwm_init system_clock pin p =
    let p₁ = record p {
      pwm_running = 0;
      board = record p.board {
        pconp = set_bit p.board.pconp 6;
        pclksel0 = set_bits_val p.board.pclksel0 12 cclk_8 2;
      };
    } in
    elim (pwm_function pin) [
      | none ↦ (negsuc 0, p₁)
      | some function ↦ (
        pos 0,
        record p₁ {
          pincon = pin_set pin function 0 0 p₁.pincon;
          board =
              on_timer timer_pwm
                (λ r. record r { pr = system_clock / 8000000; mcr = set_bit r.mcr 1 }) p₁.board;
        },
      )
    ]

-- `rflpc_pwm_start`, `rflpc_pwm_stop` and `rflpc_pwm_reset`
unfoldable pub pwm_start : Pwm → Pwm
unfolding start
pwm_start p = record p { board = start timer_pwm p.board }

unfoldable pub pwm_stop : Pwm → Pwm
unfolding stop
pwm_stop p = record p { board = stop timer_pwm p.board }

unfoldable pub pwm_reset : Pwm → Pwm
unfolding reset
pwm_reset p = record p { board = reset timer_pwm p.board }

-- `LPC_PWM1->MR… = value`
unfoldable pub write_mr : ℕ → ℕ → Pwm → Pwm
unfolding set_match_value
write_mr k value p = record p { board = set_match_value timer_pwm k value p.board }

-- `rflpc_pwm_set_period`
unfoldable pub pwm_set_period : ℕ → Pwm → Pwm
unfolding pwm_start pwm_stop pwm_reset write_mr running
pwm_set_period period p =
    if running timer_pwm p.board == 0
    then write_mr 0 period p
    else pwm_start (pwm_reset (write_mr 0 period (pwm_stop p)))

unfoldable pub set_pcr : ℕ → Pwm → Pwm
set_pcr bit p = record p { pcr = set_bit p.pcr bit }

unfoldable pub clr_pcr : ℕ → Pwm → Pwm
clr_pcr bit p = record p { pcr = clr_bit p.pcr bit }

-- `rflpc_pwm_enable` and `rflpc_pwm_disable`
unfoldable pub enable_channel : PwmChannel → Pwm → Pwm
unfolding set_pcr
enable_channel pwm1 p = set_pcr 9 p
enable_channel pwm2 p = set_pcr 10 p
enable_channel pwm3 p = set_pcr 11 p
enable_channel pwm4 p = set_pcr 12 p
enable_channel pwm5 p = set_pcr 13 p
enable_channel pwm6 p = set_pcr 14 p
enable_channel no_pwm p = p

unfoldable pub pwm_enable : ℕ → Pwm → Pwm
unfolding enable_channel channel_of
pwm_enable pin p = enable_channel (channel_of pin) p

unfoldable pub disable_channel : PwmChannel → Pwm → Pwm
unfolding clr_pcr
disable_channel pwm1 p = clr_pcr 9 p
disable_channel pwm2 p = clr_pcr 10 p
disable_channel pwm3 p = clr_pcr 11 p
disable_channel pwm4 p = clr_pcr 12 p
disable_channel pwm5 p = clr_pcr 13 p
disable_channel pwm6 p = clr_pcr 14 p
disable_channel no_pwm p = p

unfoldable pub pwm_disable : ℕ → Pwm → Pwm
unfolding disable_channel channel_of
pwm_disable pin p = disable_channel (channel_of pin) p

-- `rflpc_pwm_single_edge`
unfoldable pub single_edge_of : PwmChannel → ℕ → Pwm → Pwm
unfolding clr_pcr write_mr
single_edge_of pwm1 pulsewidth p = write_mr 1 pulsewidth p
single_edge_of pwm2 pulsewidth p = write_mr 2 pulsewidth (clr_pcr 2 p)
single_edge_of pwm3 pulsewidth p = write_mr 3 pulsewidth (clr_pcr 3 p)
single_edge_of pwm4 pulsewidth p = write_mr 4 pulsewidth (clr_pcr 4 p)
single_edge_of pwm5 pulsewidth p = write_mr 5 pulsewidth (clr_pcr 5 p)
single_edge_of pwm6 pulsewidth p = write_mr 6 pulsewidth (clr_pcr 6 p)
single_edge_of no_pwm pulsewidth p = p

unfoldable pub single_edge : ℕ → ℕ → Pwm → Pwm
unfolding single_edge_of channel_of
single_edge pin pulsewidth p = single_edge_of (channel_of pin) pulsewidth p

-- `rflpc_pwm_double_edge`
unfoldable pub double_edge_of : PwmChannel → ℕ → ℕ → Pwm → Pwm
unfolding set_pcr write_mr
double_edge_of pwm1 high_edge low_edge p = p
double_edge_of pwm2 high_edge low_edge p = write_mr 2 low_edge (write_mr 1 high_edge (set_pcr 2 p))
double_edge_of pwm3 high_edge low_edge p = write_mr 3 low_edge (write_mr 2 high_edge (set_pcr 3 p))
double_edge_of pwm4 high_edge low_edge p = write_mr 4 low_edge (write_mr 3 high_edge (set_pcr 4 p))
double_edge_of pwm5 high_edge low_edge p = write_mr 5 low_edge (write_mr 4 high_edge (set_pcr 5 p))
double_edge_of pwm6 high_edge low_edge p = write_mr 6 low_edge (write_mr 5 high_edge (set_pcr 6 p))
double_edge_of no_pwm high_edge low_edge p = p

unfoldable pub double_edge : ℕ → ℕ → ℕ → Pwm → Pwm
unfolding double_edge_of channel_of
double_edge pin high_edge low_edge p = double_edge_of (channel_of pin) high_edge low_edge p
