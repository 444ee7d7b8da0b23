-- ===== src/Adc/Values.antt =====
-- What the two reads return.
use rflpc.Base.{
  ℕ, ◌+◌, ◌<◌, ◌==◌, if◌then◌else◌, ltb, List, [], ◌∷◌, ◌++◌, some, bit_and, bit_or, max, ◌≡◌, refl,
  ap, ◌∙◌, arith,
}
use rflpc.Base.Bits.{bit_at, bit_at-lt, bit_at-bit_or, bit_at-bit_and}
use rflpc.Base.Word.{
  shr, u16, set_bit, bit_and-shl_one, bit_at-mod, bit_at-set_bit, bit_at_ones, bit_at-shr_up,
}
use rflpc.Adc.{adc_read, adc_read_global, wait_done, result_of, global_result_of, pin_to_channel}

-- Loads that show no conversion that is done.
abbrev pub AllBusy : List ℕ → Type 0
AllBusy [] = Unit
AllBusy (v ∷ l) = (bit_at v 31 ≡ 0) × AllBusy l

done_test : (v : ℕ) → (bit_and v 0x80000000 == 0x80000000) ≡ (bit_at v 31 == 1)
done_test v = ground (arith, bit_and-shl_one v 31, bit_at-lt v 31)

wait_done_lem :
    (busy rest : List ℕ) (v w : ℕ)
    → AllBusy busy
    → bit_at v 31 ≡ 1
    → wait_done (busy ++ (v ∷ w ∷ rest)) ≡ some w
unfolding wait_done
wait_done_lem [] rest v w b h = rw (done_test v, h) refl
wait_done_lem (u ∷ []) rest v w b h = rw (done_test u, b.0) (wait_done_lem [] rest v w b.1 h)
wait_done_lem (u ∷ t ∷ l) rest v w b h =
    rw (done_test u, b.0) (wait_done_lem (t ∷ l) rest v w b.1 h)

-- Twelve bits from bit 4 on.
value_bits :
    (w k : ℕ)
    → k < 16
    → bit_at (u16 (bit_and (shr w 4) 0xfff)) k ≡ (if ltb k 12 then bit_at w (k + 4) else 0)
value_bits w k h =
    bit_at-mod 16 (bit_and (shr w 4) 0xfff) k h
    ∙ ground (
      arith,
      bit_at-bit_and (shr w 4) 0xfff k,
      bit_at_ones 12 k,
      bit_at-shr_up 4 w k (k + 4) (omega arith),
      bit_at-lt w (k + 4),
    )

overrun_test : (w : ℕ) → (bit_and w 0x40000000 == 0) ≡ (bit_at w 30 == 0)
overrun_test w = ground (arith, bit_and-shl_one w 30, bit_at-lt w 30)

-- The flag goes to bit 15.
flag_bits :
    (r w k : ℕ)
    → k < 16
    → bit_at r 15 ≡ 0
    → bit_at (if bit_and w 0x40000000 == 0 then r else u16 (set_bit r 15)) k
      ≡ (if k == 15 then bit_at w 30 else bit_at r k)
flag_bits r w k h low =
    rw (overrun_test w)
      (ground (arith, bit_at-mod 16 (set_bit r 15) k h, bit_at-set_bit r 15 k, bit_at-lt w 30, low))

-- rflpc_adc_read waits while its pin's data register shows no conversion that is done, and then returns the twelve
-- bits of the value that the next load of the register shows, with the overrun flag as bit 15.
pub adc_read-Done :
    (pin : ℕ) (addr : ℕ → List ℕ) (busy rest : List ℕ) (v w : ℕ)
    → addr (pin_to_channel pin) ≡ busy ++ (v ∷ w ∷ rest)
    → AllBusy busy
    → bit_at v 31 ≡ 1
    → (adc_read pin addr ≡ some (result_of w))
      × ((k : ℕ)
          → k < 16
          → bit_at (result_of w) k
            ≡ (if k == 15 then bit_at w 30 else if ltb k 12 then bit_at w (k + 4) else 0))
unfolding adc_read result_of
adc_read-Done pin addr busy rest v w shown b h =
    let value = u16 (bit_and (shr w 4) 0xfff) in
    (
      rw (shown, wait_done_lem busy rest v w b h) refl,
      λ k l.
          flag_bits value w k l (value_bits w 15 (omega arith))
          ∙ ap (λ x. if k == 15 then bit_at w 30 else x) (value_bits w k l),
    )

channel_bits :
    (w k : ℕ)
    → k < 16
    → bit_at (u16 (bit_or (u16 (bit_and (shr w 4) 0xfff)) (bit_and (shr w 24) 0x07))) k ≡ (
        if ltb k 3
        then max (bit_at w (k + 4)) (bit_at w (k + 24))
        else if ltb k 12
        then bit_at w (k + 4)
        else 0)
channel_bits w k h =
    let value = u16 (bit_and (shr w 4) 0xfff) in
    bit_at-mod 16 (bit_or value (bit_and (shr w 24) 0x07)) k h
    ∙ ground (
      arith,
      bit_at-bit_or value (bit_and (shr w 24) 0x07) k,
      value_bits w k h,
      bit_at-bit_and (shr w 24) 0x07 k,
      bit_at_ones 3 k,
      bit_at-shr_up 24 w k (k + 24) (omega arith),
      bit_at-lt w (k + 24),
      bit_at-lt w (k + 4),
    )

-- rflpc_adc_read_global puts the three bits of the channel over the low bits of the value, not into the bits 12 to
-- 14, which are 0: where a bit of the channel is 1, the bit of the value is lost.
pub adc_read_global-Mixes :
    (busy rest : List ℕ) (v w : ℕ)
    → AllBusy busy
    → bit_at v 31 ≡ 1
    → (adc_read_global (busy ++ (v ∷ w ∷ rest)) ≡ some (global_result_of w))
      × ((k : ℕ)
          → k < 16
          → bit_at (global_result_of w) k ≡ (
              if k == 15
              then bit_at w 30
              else if ltb k 3
              then max (bit_at w (k + 4)) (bit_at w (k + 24))
              else if ltb k 12
              then bit_at w (k + 4)
              else 0))
unfolding adc_read_global global_result_of
adc_read_global-Mixes busy rest v w b h =
    let mixed = u16 (bit_or (u16 (bit_and (shr w 4) 0xfff)) (bit_and (shr w 24) 0x07)) in
    (
      rw (wait_done_lem busy rest v w b h) refl,
      λ k l.
          flag_bits mixed w k l (channel_bits w 15 (omega arith))
          ∙ ap (λ x. if k == 15 then bit_at w 30 else x) (channel_bits w k l),
    )
