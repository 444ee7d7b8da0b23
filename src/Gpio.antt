-- ===== src/Gpio.antt =====
-- rflpc17xx/drivers/gpio.c, with what the manual says of a port: a write through FIOSET, FIOCLR and FIOPIN changes
-- the output bits that are clear in FIOMASK only, and FIOPIN shows the pins whose bit there is clear.
pub mod Pins
mod Tests
use rflpc.Base.{ℕ, ◌-◌, ◌*◌, ◌/◌, ◌+◌, ◌^◌, ◌==◌, if◌then◌else◌, bit_and, bit_or}
use rflpc.Base.Word.{shl, shr, not32, set_bit, clr_bit}
use rflpc.Pin.{Pincon, get_port, get_pin, pin_set}

-- The registers of a port, and the levels that its surroundings give to the pins that are inputs.
pub record Port : Type 0 where
  pub fiodir : ℕ
  pub fiomask : ℕ
  pub output : ℕ
  pub external : ℕ

pub record Gpio : Type 0 where
  pub ports : ℕ → Port
  pub pincon : Pincon

-- The accesses to a port.
unfoldable pub write_fioset : ℕ → Port → Port
write_fioset v p = record p { output = bit_or p.output (bit_and v (not32 p.fiomask)) }

unfoldable pub write_fioclr : ℕ → Port → Port
write_fioclr v p = record p { output = bit_and p.output (not32 (bit_and v (not32 p.fiomask))) }

unfoldable pub write_fiopin : ℕ → Port → Port
write_fiopin v p = record p {
  output = bit_or (bit_and p.output p.fiomask) (bit_and v (not32 p.fiomask));
}

unfoldable pub read_fiopin : Port → ℕ
read_fiopin p =
    bit_and (bit_or (bit_and p.output p.fiodir) (bit_and p.external (not32 p.fiodir)))
      (not32 p.fiomask)

abbrev pub with_mask : ℕ → Port → Port
with_mask mask p = record p { fiomask = mask }

-- `RFLPC_GPIO_BASE(pin)->…`
abbrev pub on_port : ℕ → (Port → Port) → Gpio → Gpio
on_port i f g = record g { ports = λ k. if k == i then f (g.ports k) else g.ports k }

-- `rflpc_gpio_use_pin`
unfoldable pub use_pin : ℕ → ℕ → Gpio → Gpio
use_pin pin mode g = record g { pincon = pin_set pin 0 mode 0 g.pincon }

-- `rflpc_gpio_set_pin` and `rflpc_gpio_clr_pin`
unfoldable pub set_pin : ℕ → Gpio → Gpio
unfolding write_fioset
set_pin pin g =
    on_port (get_port pin)
      (λ p. write_fioset 0xffffffff (with_mask (not32 (shl 1 (get_pin pin))) p)) g

unfoldable pub clr_pin : ℕ → Gpio → Gpio
unfolding write_fioclr
clr_pin pin g =
    on_port (get_port pin)
      (λ p. write_fioclr 0xffffffff (with_mask (not32 (shl 1 (get_pin pin))) p)) g

-- `rflpc_gpio_set_pins_from_mask`: FIOSET shows the output. `rflpc_gpio_clr_pins_from_mask`: FIOCLR is for writing
-- only, and `shown` is what a read of it gives.
unfoldable pub set_pins_from_mask : ℕ → ℕ → Gpio → Gpio
unfolding write_fioset
set_pins_from_mask gpio mask g =
    on_port gpio (λ p. write_fioset (bit_or p.output mask) (with_mask (not32 mask) p)) g

unfoldable pub clr_pins_from_mask : ℕ → ℕ → ℕ → Gpio → Gpio
unfolding write_fioclr
clr_pins_from_mask shown gpio mask g =
    on_port gpio (λ p. write_fioclr (bit_or shown mask) (with_mask (not32 mask) p)) g

-- `rflpc_gpio_set_pin_val`
unfoldable pub set_pin_val : ℕ → ℕ → Gpio → Gpio
unfolding set_pin clr_pin
set_pin_val pin val g = if val == 0 then clr_pin pin g else set_pin pin g

-- `rflpc_gpio_set_pin_mode_input` and `rflpc_gpio_set_pin_mode_output`
unfoldable pub set_pin_mode_input : ℕ → ℕ → Gpio → Gpio
unfolding use_pin
set_pin_mode_input pin mode g =
    on_port (get_port pin) (λ p. record p { fiodir = clr_bit p.fiodir (get_pin pin) })
      (use_pin pin mode g)

unfoldable pub set_pin_mode_output : ℕ → ℕ → Gpio → Gpio
unfolding use_pin set_pin_val
set_pin_mode_output pin val g =
    on_port (get_port pin) (λ p. record p { fiodir = set_bit p.fiodir (get_pin pin) })
      (set_pin_val pin val (use_pin pin 0 g))

-- `rflpc_gpio_set_val`
unfoldable pub set_val : ℕ → ℕ → ℕ → Gpio → Gpio
unfolding write_fiopin
set_val gpio val mask g = on_port gpio (λ p. write_fiopin val (with_mask mask p)) g

-- `rflpc_gpio_get_pin` and `rflpc_gpio_get_val`: the value, and the ports afterwards.
unfoldable pub gpio_get_pin : ℕ → Gpio → ℕ × Gpio
unfolding read_fiopin
gpio_get_pin pin g =
    let g' = on_port (get_port pin) (with_mask (not32 (shl 1 (get_pin pin)))) g in
    (bit_and (shr (read_fiopin (g'.ports (get_port pin))) (get_pin pin)) 1, g')

unfoldable pub get_val : ℕ → Gpio → ℕ × Gpio
unfolding read_fiopin
get_val gpio g = let g' = on_port gpio (with_mask 0) g in (read_fiopin (g'.ports gpio), g')
