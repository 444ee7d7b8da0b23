-- ===== src/System.antt =====
-- The registers of LPC_SC that the drivers share, power and peripheral clocks, with those of the pins. The
-- enumeration `rflpc_clock_divider_t` of rflpc17xx/clock.h.
use rflpc.Base.{ℕ}
use rflpc.Base.Word.{set_bit, set_bits_val}
use rflpc.Pin.{Pincon, pin_set}

pub record System : Type 0 where
  pub pconp : ℕ
  pub pclksel0 : ℕ
  pub pclksel1 : ℕ
  pub pincon : Pincon

-- `RFLPC_CCLK_4` and so on, as their values.
abbrev pub cclk_8 : ℕ
cclk_8 = 3

-- `RFLPC_SET_BIT(LPC_SC->PCONP, bit)`
unfoldable pub power : ℕ → System → System
power bit s = record s { pconp = set_bit s.pconp bit }

-- `RFLPC_SET_BITS_VAL(LPC_SC->PCLKSEL0, …, divider, 2)`, and the same for PCLKSEL1.
unfoldable pub clock0 : ℕ → ℕ → System → System
clock0 pos divider s = record s { pclksel0 = set_bits_val s.pclksel0 pos divider 2 }

unfoldable pub clock1 : ℕ → ℕ → System → System
clock1 pos divider s = record s { pclksel1 = set_bits_val s.pclksel1 pos divider 2 }

-- `rflpc_pin_set`
unfoldable pub set_pin_function : ℕ → ℕ → ℕ → ℕ → System → System
set_pin_function pin function mode opendrain s = record s {
  pincon = pin_set pin function mode opendrain s.pincon;
}
