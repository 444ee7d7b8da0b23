-- ===== src/Spi.antt =====
-- rflpc17xx/drivers/spi.c and spi.h: the two SSP ports. The manual's FIFOs have eight frames each. Each load of the
-- status register is an event: how many frames have gone from the FIFO to the shift register since the last one,
-- whether the shift register has sent the last of them, and which frames have arrived. Where the list of the events
-- ends, the call still waits.
pub mod Fields
pub mod Frames
mod Tests
use rflpc.Base.{
  ℕ, zero, suc, ◌+◌, ◌-◌, ◌*◌, ◌^◌, ◌==◌, if◌then◌else◌, ltb, List, [], ◌∷◌, ◌++◌, Option, none,
  some, ◌>>=◌, Bool, true, false, not, ◌&&◌, ◌||◌, bit_and, bit_or, length, take, drop,
}
use rflpc.Base.Word.{u16, set_bit, set_bits_val}
use rflpc.Pin.{Pincon}
use rflpc.Interrupt.{Interrupts, pos, irq_set_handler, enable_irq}
use rflpc.System.{System, power, clock0, clock1, set_pin_function}

-- `rflpc_spi_t` and `rflpc_spi_mode_t`
pub data SpiPort : Type 0 where
  spi0 spi1 : SpiPort

pub data SpiMode : Type 0 where
  master slave : SpiMode

-- The registers of a port, its FIFOs, the frames that have gone to the shift register, and whether the last of them
-- is still on its way.
pub record Ssp : Type 0 where
  pub cr0 : ℕ
  pub cr1 : ℕ
  pub cpsr : ℕ
  pub imsc : ℕ
  pub tx : List ℕ
  pub rx : List ℕ
  pub sent : List ℕ
  pub shifting : Bool

abbrev pub Event : Type 0
Event = ℕ × Bool × List ℕ

unfoldable pub is_empty : List ℕ → Bool
is_empty [] = true
is_empty (x ∷ l) = false

-- What happens between two loads: frames that find the receive FIFO full are lost.
unfoldable pub pass : Event → Ssp → Ssp
unfolding is_empty
pass (n, done, frames) s = record s {
  tx = drop n s.tx;
  sent = s.sent ++ take n s.tx;
  rx = take 8 (s.rx ++ frames);
  shifting = (s.shifting || not (is_empty (take n s.tx))) && not done;
}

-- The bits of the status register: TFE, TNF, RNE and BSY, which is set while a frame is shifted or waits in the FIFO.
unfoldable pub status : Ssp → ℕ
unfolding is_empty
status s =
    (if is_empty s.tx then 1 else 0)
    + (if ltb (length s.tx) 8 then 2 else 0)
    + (if is_empty s.rx then 0 else 4)
    + (if is_empty s.tx && not s.shifting then 0 else 16)

-- `rflpc_spi_tx_fifo_empty`, `rflpc_spi_idle`, `rflpc_spi_tx_fifo_full` and `rflpc_spi_rx_fifo_empty`, on the status
-- that is loaded.
unfoldable pub tx_fifo_empty : ℕ → Bool
tx_fifo_empty sr = if bit_and sr 1 == 0 then false else true

unfoldable pub spi_idle : ℕ → Bool
spi_idle sr = bit_and sr 0x10 == 0

unfoldable pub tx_fifo_full : ℕ → Bool
tx_fifo_full sr = bit_and sr 2 == 0

unfoldable pub rx_fifo_empty : ℕ → Bool
rx_fifo_empty sr = bit_and sr 4 == 0

-- `spi_base->DR = data`: a frame that finds the FIFO full is lost.
unfoldable pub write_dr : ℕ → Ssp → Ssp
write_dr frame s = record s { tx = take 8 (s.tx ++ (frame ∷ [])) }

-- `rflpc_spi_write`: the port afterwards, and the events that are left.
unfoldable pub spi_write : ℕ → List Event → Ssp → Option (Ssp × List Event)
unfolding tx_fifo_full write_dr pass status
spi_write frame [] s = none
spi_write frame (e ∷ es) s =
    let s' = pass e s in
    elim (tx_fifo_full (status s')) [
      | true ↦ spi_write frame es s'
      | false ↦ some (write_dr (u16 frame) s', es)
    ]

-- `rflpc_spi_read`
unfoldable pub read_dr : List ℕ → ℕ
read_dr [] = 0
read_dr (x ∷ l) = x

unfoldable pub spi_read : List Event → Ssp → Option (ℕ × Ssp × List Event)
unfolding rx_fifo_empty pass status read_dr
spi_read [] s = none
spi_read (e ∷ es) s =
    let s' = pass e s in
    elim (rx_fifo_empty (status s')) [
      | true ↦ spi_read es s'
      | false ↦ some (u16 (read_dr s'.rx), record s' { rx = drop 1 s'.rx }, es)
    ]

-- `rflpc_spi_init`: the pins, with their pull-up resistors, the power and the clock of the port.
unfoldable pub spi_pins : SpiPort → ℕ → System → System
unfolding power clock0 clock1 set_pin_function
spi_pins spi0 divider s = set_pin_function 16 2 0 0 (
    set_pin_function 18 2 0 0
      (set_pin_function 17 2 0 0 (set_pin_function 15 2 0 0 (clock1 10 divider (power 21 s)))))
spi_pins spi1 divider s = set_pin_function 6 2 0 0 (
    set_pin_function 9 2 0 0
      (set_pin_function 8 2 0 0 (set_pin_function 7 2 0 0 (clock0 20 divider (power 10 s)))))

unfoldable pub cr0_of : SpiMode → ℕ → ℕ → ℕ → ℕ
cr0_of mode data_size_transfert serial_clock_rate clock_polarity_phase =
    let size = bit_and (data_size_transfert + (2 ^ 32 - 1)) 0xf in
    let with_phase = if bit_and clock_polarity_phase 0x01 == 0 then size else set_bit size 7 in
    let with_polarity =
      if bit_and clock_polarity_phase 0x02 == 0 then with_phase else set_bit with_phase 6 in
    elim mode [
      | master ↦ set_bits_val with_polarity 8 (serial_clock_rate + (2 ^ 32 - 1)) 8
      | slave ↦ with_polarity
    ]

unfoldable pub spi_init : SpiPort → SpiMode → ℕ → ℕ → ℕ → ℕ → ℕ → System × Ssp → System × Ssp
unfolding spi_pins cr0_of
spi_init port mode cpu_clock_divider data_size_transfert clock_prescale serial_clock_rate
      clock_polarity_phase (s, p) =
    (
      spi_pins port cpu_clock_divider s,
      record p {
        cr0 = cr0_of mode data_size_transfert serial_clock_rate clock_polarity_phase;
        cr1 = elim mode [ master ↦ 2 | slave ↦ set_bit 2 2 ];
        cpsr = elim mode [ master ↦ clock_prescale | slave ↦ p.cpsr ];
      },
    )

-- `rflpc_spi_set_rx_callback`: SSP0_IRQn is 14, and the port counts from 0.
unfoldable pub port_index : SpiPort → ℕ
port_index spi0 = 0
port_index spi1 = 1

unfoldable pub spi_set_rx_callback : SpiPort → ℕ → Interrupts × Ssp → Interrupts × Ssp
unfolding port_index irq_set_handler enable_irq
spi_set_rx_callback port callback (i, p) =
    let irq = 14 + port_index port in
    (enable_irq irq (irq_set_handler (pos irq) callback i), record p { imsc = set_bit p.imsc 2 })
