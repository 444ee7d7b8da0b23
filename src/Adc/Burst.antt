-- ===== src/Adc/Burst.antt =====
-- Burst mode: which channel's interrupt is enabled.
use rflpc.Base.{
  ℕ, ◌<◌, ◌==◌, if◌then◌else◌, List, [], ◌∷◌, false, bit_or, max, ◌≡◌, ◌≢◌, refl, ap, ap₂, ◌∙◌, inl,
  inr, Bool-cases, arith,
}
use rflpc.Base.Bits.{bit_at, bit_at-lt, bit_at-bit_or, bit_or-lt, bit_and-mask}
use rflpc.Base.Word.{u8, set_bit, bit_and-shl_one, bit_at-set_bit}
use rflpc.Adc.{
  Adc, burst_init, burst_enable, burst_start, find_channel, with_interrupt, pin_to_channel,
}

-- The pins that the converter has, by their channel.
abbrev pub IsAdcPin : ℕ → Type 0
IsAdcPin pin = pin_to_channel pin < 8

abbrev pub enable_all : List ℕ → Adc → Adc
enable_all [] a = a
enable_all (pin ∷ pins) a = enable_all pins (burst_enable pin a)

abbrev pub AllAdcPins : List ℕ → Type 0
AllAdcPins [] = Unit
AllAdcPins (pin ∷ pins) = IsAdcPin pin × AllAdcPins pins

-- Whether one of the pins has a channel whose number has bit 1: 2, 3, 6 or 7.
abbrev pub some_second_bit : List ℕ → ℕ
some_second_bit [] = 0
some_second_bit (pin ∷ pins) = max (bit_at (pin_to_channel pin) 1) (some_second_bit pins)

abbrev channels : List ℕ → ℕ → ℕ
channels [] e = e
channels (pin ∷ pins) e = channels pins (u8 (bit_or e (pin_to_channel pin)))

enabled_channels_lem :
    (pins : List ℕ) (a : Adc)
    → (enable_all pins a).enabled_channels ≡ channels pins a.enabled_channels
unfolding burst_enable
enabled_channels_lem [] a = refl
enabled_channels_lem (pin ∷ pins) a = enabled_channels_lem pins (burst_enable pin a)

enable_all_keeps :
    (pins : List ℕ) (a : Adc)
    → ((enable_all pins a).adinten ≡ a.adinten)
      × ((enable_all pins a).interrupt_handler ≡ a.interrupt_handler)
unfolding burst_enable
enable_all_keeps [] a = (refl, refl)
enable_all_keeps (pin ∷ pins) a = enable_all_keeps pins (burst_enable pin a)

channels-lt :
    (pins : List ℕ) (e : ℕ)
    → AllAdcPins pins
    → e < 8
    → (channels pins e < 8) × (bit_at (channels pins e) 1 ≡ max (bit_at e 1) (some_second_bit pins))
channels-lt [] e ok h = (h, ground (arith, bit_at-lt e 1))
channels-lt (pin ∷ pins) e ok h =
    let c = pin_to_channel pin in
    let small : bit_or e c < 8 = bit_or-lt 3 e c h ok.0 in
    let same : u8 (bit_or e c) ≡ bit_or e c = omega (arith, small) in
    let (low, bit) = channels-lt pins (bit_or e c) ok.1 small in
    rw same (low, bit ∙ ground (arith, bit_at-bit_or e c 1))

-- The loop on a number below 8.
find_channel_lem : (e : ℕ) → e < 8 → find_channel e 0x80 8 ≡ (if bit_at e 1 == 1 then 5 else 4)
unfolding find_channel
find_channel_lem e h = ground (
  arith,
  bit_and-shl_one e 7,
  bit_and-shl_one e 5,
  bit_and-shl_one e 3,
  bit_and-shl_one e 1,
  bit_and-mask 0 e,
  bit_at-lt e 1,
)

burst_init-starts :
    (clock_divider handler : ℕ) (a : Adc)
    → (handler == 0) ≡ false
    → ((burst_init clock_divider handler a).adinten ≡ a.adinten)
      × ((burst_init clock_divider handler a).enabled_channels ≡ 0)
      × ((burst_init clock_divider handler a).interrupt_handler ≡ handler)
unfolding burst_init
burst_init-starts clock_divider handler a given = rw given (refl, refl, refl)

started :
    (a : Adc)
    → (a.interrupt_handler == 0) ≡ false
    → a.enabled_channels < 8
    → (burst_start a).adinten
      ≡ set_bit a.adinten (if bit_at a.enabled_channels 1 == 1 then 4 else 3)
unfolding burst_start with_interrupt
started a called low =
    rw (called, find_channel_lem a.enabled_channels low)
      (elim (Bool-cases (bit_at a.enabled_channels 1 == 1)) [
        | inl e ↦ rw e refl
        | inr e ↦ rw e refl
      ])

-- In burst mode with a handler, rflpc_adc_burst_start enables the interrupt of channel 4 where one of the pins that
-- were enabled has the channel 2, 3, 6 or 7, and of channel 3 where none has, and no other: the highest channel that
-- is enabled plays no part. The pins are pins of the converter.
pub burst_start-picks :
    (clock_divider handler : ℕ) (pins : List ℕ) (a : Adc) (k : ℕ)
    → handler ≢ 0
    → AllAdcPins pins
    → bit_at (burst_start (enable_all pins (burst_init clock_divider handler a))).adinten k
      ≡ (if k == (if some_second_bit pins == 1 then 4 else 3) then 1 else bit_at a.adinten k)
burst_start-picks clock_divider handler pins a k called ok =
    let a₀ = burst_init clock_divider handler a in
    let a₁ = enable_all pins a₀ in
    let given : (handler == 0) ≡ false = ground arith in
    let (ints, kept) = enable_all_keeps pins a₀ in
    let (ints₀, clear, kept₀) = burst_init-starts clock_divider handler a given in
    let channels₁ = enabled_channels_lem pins a₀ ∙ ap (channels pins) clear in
    let (low, bit) = channels-lt pins 0 ok (omega arith) in
    let on : (a₁.interrupt_handler == 0) ≡ false = ap (λ h. h == 0) (kept ∙ kept₀) ∙ given in
    let small : a₁.enabled_channels < 8 = omega (arith, channels₁, low) in
    let picked : bit_at a₁.enabled_channels 1 ≡ some_second_bit pins =
      ap (λ e. bit_at e 1) channels₁ ∙ bit ∙ ground arith in
    ap (λ v. bit_at v k) (started a₁ on small)
    ∙ ap₂ (λ (n b : ℕ). bit_at (set_bit n (if b == 1 then 4 else 3)) k) (ints ∙ ints₀) picked
    ∙ bit_at-set_bit a.adinten (if some_second_bit pins == 1 then 4 else 3) k
