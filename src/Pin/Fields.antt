-- ===== src/Pin/Fields.antt =====
-- What rflpc_pin_set changes in the registers that sixteen or thirty-two pins share.
use rflpc.Base.{
  ℕ, ◌+◌, ◌-◌, ◌*◌, ◌/◌, ◌%◌, ◌<◌, ◌≤◌, ◌==◌, if◌then◌else◌, ◌≡◌, ◌≢◌, ap, bit_and, arith,
}
use rflpc.Base.Bits.{bit_at, bit_and-mask}
use rflpc.Base.Word.{shr, put_field, bit_at-put_field, bit_at-set_bit}
use rflpc.Pin.{Pincon, get_port, get_pin, register_idx, pin_in_register, pin_set}

-- Register `register_idx` has the pins from `16 * register_idx` on.
register_of_pin :
    (p : ℕ)
    → p < 160
    → (register_idx p * 16 + pin_in_register p ≡ p)
      × (pin_in_register p < 16)
      × (get_port p ≡ p / 32)
      × (get_pin p ≡ p % 32)
unfolding register_idx pin_in_register get_port get_pin
register_of_pin p h = ground (arith, bit_and-mask 3 (shr p 5), bit_and-mask 5 p)

field_bits :
    (r pin v k : ℕ)
    → pin < 16
    → k < 32
    → bit_at (put_field r (pin * 2) 2 (bit_and v 0x3)) k
      ≡ (if k / 2 == pin then bit_at (v % 4) (k % 2) else bit_at r k)
field_bits r pin v k hp hk =
    let low : bit_and v 0x3 ≡ v % 4 = bit_and-mask 2 v in
    let at : k / 2 ≡ pin → bit_at (v % 4) (k - pin * 2) ≡ bit_at (v % 4) (k % 2) =
      λ e. (let i : k - pin * 2 ≡ k % 2 = omega (arith, e) in ap (bit_at (v % 4)) i) in
    rw low
      (ground (arith, bit_at-put_field r (pin * 2) 2 (v % 4) k (omega arith) (omega arith) hk, at))

-- Each register has two bits for each of sixteen pins. For the pins of the ports 0 to 4, rflpc_pin_set puts
-- the two low bits of the function and of the mode into those of its pin, and leaves those of every other
-- pin, in the same register or in another one, as they were.
pub pin_set_bits :
    (p function mode opendrain : ℕ) (c : Pincon) (i k : ℕ)
    → p < 160
    → k < 32
    → (bit_at ((pin_set p function mode opendrain c).pinsel i) k
        ≡ (if i * 16 + k / 2 == p then bit_at (function % 4) (k % 2) else bit_at (c.pinsel i) k))
      × (bit_at ((pin_set p function mode opendrain c).pinmode i) k
          ≡ (if i * 16 + k / 2 == p then bit_at (mode % 4) (k % 2) else bit_at (c.pinmode i) k))
unfolding pin_set
pin_set_bits p function mode opendrain c i k hp hk =
    let (e, few, _, _) = register_of_pin p hp in
    ground (
      arith,
      e,
      few,
      ap c.pinsel {x = i} {y = register_idx p},
      ap c.pinmode {x = i} {y = register_idx p},
      field_bits (c.pinsel (register_idx p)) (pin_in_register p) function k few hk,
      field_bits (c.pinmode (register_idx p)) (pin_in_register p) mode k few hk,
    )

-- For a pin from 16 on, an open-drain output is switched on at the pin sixteen places below in the same
-- port's register, and the bit of the pin itself stays as it was.
pub pin_set_drains_lower :
    (p function mode opendrain : ℕ) (c : Pincon)
    → p < 160
    → 16 ≤ p % 32
    → opendrain ≢ 0
    → (bit_at ((pin_set p function mode opendrain c).pinmode_od (p / 32)) (p % 32 - 16) ≡ 1)
      × (bit_at ((pin_set p function mode opendrain c).pinmode_od (p / 32)) (p % 32)
          ≡ bit_at (c.pinmode_od (p / 32)) (p % 32))
unfolding pin_set pin_in_register
pin_set_drains_lower p function mode opendrain c hp high on =
    let (_, _, port, pin) = register_of_pin p hp in
    rw (port, pin)
      (ground (
        arith,
        bit_at-set_bit (c.pinmode_od (p / 32)) (p % 32 - 16) (p % 32 - 16),
        bit_at-set_bit (c.pinmode_od (p / 32)) (p % 32 - 16) (p % 32),
      ))
