-- ===== src/Spi/Fields.antt =====
-- The fields of the control register that rflpc_spi_init sets.
use rflpc.Base.{
  ℕ, ◌+◌, ◌-◌, ◌%◌, ◌^◌, ◌≤◌, ◌<◌, ◌==◌, if◌then◌else◌, leb, ltb, ◌&&◌, bit_and, ◌≡◌, ap, ◌∙◌,
  Bool-cases, inl, inr, arith,
}
use rflpc.Base.Bits.{bit_at, bit_at-lt, bit_and-mask, bit_at_above}
use rflpc.Base.Word.{set_bit, bit_and-shl_one, bit_at-set_bit, bit_at-set_bits_val, bit_at-mod}
use rflpc.System.{System}
use rflpc.Spi.{SpiPort, SpiMode, master, slave, Ssp, spi_init, cr0_of}

when_bit :
    (r q b k : ℕ)
    → q < 2
    → bit_at r b ≡ 0
    → bit_at (if q == 0 then r else set_bit r b) k ≡ (if k == b then q else bit_at r k)
when_bit r q b k h low = elim (Bool-cases (q == 0)) [
  | inl e ↦ rw e (ground (arith, low, ap (bit_at r) {x = k} {y = b}))
  | inr e ↦ rw e (ground (arith, bit_at-set_bit r b k))
]

phase_test : (v : ℕ) → (bit_and v 0x01 == 0) ≡ (bit_at v 0 == 0)
phase_test v = ground (arith, bit_and-shl_one v 0, bit_at-lt v 0)

polarity_test : (v : ℕ) → (bit_and v 0x02 == 0) ≡ (bit_at v 1 == 0)
polarity_test v = ground (arith, bit_and-shl_one v 1, bit_at-lt v 1)

size_bits :
    (size k : ℕ)
    → 1 ≤ size
    → size ≤ 16
    → bit_at (bit_and (size + (2 ^ 32 - 1)) 0xf) k ≡ bit_at (size - 1) k
size_bits size k h l =
    ap (λ (v : ℕ). bit_at v k) (bit_and-mask 4 (size + (2 ^ 32 - 1)) ∙ omega arith)

abbrev frame_word : ℕ → ℕ → ℕ
frame_word size phase =
    let word = bit_and (size + (2 ^ 32 - 1)) 0xf in
    let with_phase = if bit_and phase 0x01 == 0 then word else set_bit word 7 in
    if bit_and phase 0x02 == 0 then with_phase else set_bit with_phase 6

frame_bits :
    (size phase k : ℕ)
    → 1 ≤ size
    → size ≤ 16
    → bit_at (frame_word size phase) k ≡ (
        if ltb k 4
        then bit_at (size - 1) k
        else if k == 6
        then bit_at phase 1
        else if k == 7
        then bit_at phase 0
        else 0)
frame_bits size phase k h l =
    let word = bit_and (size + (2 ^ 32 - 1)) 0xf in
    let low = λ (j : ℕ). size_bits size j h l in
    let above = λ (j : ℕ). bit_at_above 4 (size - 1) j in
    let seventh =
      when_bit word (bit_at phase 0) 7 k (bit_at-lt phase 0)
        (low 7 ∙ above 7 (omega arith) (omega arith)) in
    let sixth₀ =
      when_bit word (bit_at phase 0) 7 6 (bit_at-lt phase 0)
        (low 7 ∙ above 7 (omega arith) (omega arith)) in
    let with_phase = if bit_at phase 0 == 0 then word else set_bit word 7 in
    let sixth =
      when_bit with_phase (bit_at phase 1) 6 k (bit_at-lt phase 1)
        (sixth₀ ∙ low 6 ∙ above 6 (omega arith) (omega arith)) in
    rw (phase_test phase, polarity_test phase) (sixth ∙ ground (arith, seventh, low k, above k))

-- The control word of rflpc_spi_init: the four low bits are the size of a frame less one, bit 6 is the polarity and
-- bit 7 the phase; for a master the next eight bits are the serial clock rate less one, and for a slave they are 0.
-- A frame has 1 to 16 bits and the rate is 1 to 256; every other bit is 0.
pub spi_init-Configures :
    (port : SpiPort) (mode : SpiMode) (divider size prescale rate phase k : ℕ) (s : System)
    (p : Ssp)
    → 1 ≤ size
    → size ≤ 16
    → 1 ≤ rate
    → rate ≤ 256
    → k < 32
    → bit_at (spi_init port mode divider size prescale rate phase (s, p)).1.cr0 k ≡ (
        if ltb k 4
        then bit_at (size - 1) k
        else if k == 6
        then bit_at phase 1
        else if k == 7
        then bit_at phase 0
        else if leb 8 k && ltb k 16
        then elim mode [ master ↦ bit_at (rate - 1) (k - 8) | slave ↦ 0 ]
        else 0)
unfolding spi_init cr0_of
spi_init-Configures port slave divider size prescale rate phase k s p h₁ h₂ h₃ h₄ hk =
    frame_bits size phase k h₁ h₂ ∙ ground arith
spi_init-Configures port master divider size prescale rate phase k s p h₁ h₂ h₃ h₄ hk =
    let less : (rate + (2 ^ 32 - 1)) % 2 ^ 8 ≡ rate - 1 = omega arith in
    bit_at-set_bits_val (frame_word size phase) 8 (rate + (2 ^ 32 - 1)) 8 k (omega arith) hk
    ∙ ground (
      arith,
      frame_bits size phase k h₁ h₂,
      bit_at-mod 8 (rate + (2 ^ 32 - 1)) (k - 8),
      ap (λ (v : ℕ). bit_at v (k - 8)) less,
    )
