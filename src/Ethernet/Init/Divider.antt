-- ===== src/Ethernet/Init/Divider.antt =====
-- The divider of the management clock that rflpc_eth_init chooses.
use rflpc.Base.{
  ℕ, zero, suc, ◌+◌, ◌*◌, ◌/◌, ◌≤◌, ◌<◌, leb, bit_and, bit_or, List, [], ◌∷◌, length, get_or, ◌≡◌,
  ◌∙◌, Bool-cases, inl, inr, arith, leb→le,
}
use rflpc.Base.Bits.{bit_at_above, bit_and-mask, bit_and-le, eq_of_bits}
use rflpc.Base.Word.{shl, not32, bit_at-bit_or-shl, bit_at-bit_and_not}
use rflpc.Ethernet.{Emac}
use rflpc.Ethernet.Init.{
  clock_dividers, max_clock, first_divider, mii_index, mcfg_of, set_registers,
}

-- What the loop finds: `j` places further, the first divider that is large enough, or the end of the list.
abbrev Finds : List ℕ → ℕ → ℕ → Type 0
Finds ds n j =
    (j ≤ length ds) × ((k : ℕ) → k < j → get_or ds k 0 < n) × (j < length ds → n ≤ get_or ds j 0)

later :
    (d : ℕ) (ds : List ℕ) (n j : ℕ)
    → d < n
    → ((k : ℕ) → k < j → get_or ds k 0 < n)
    → (k : ℕ) → k < suc j
    → get_or (d ∷ ds) k 0 < n
later d ds n j l before zero h = l
later d ds n j l before (suc k) h = before k (omega arith)

first_divider-Finds :
    (ds : List ℕ) (n i : ℕ) → (j : ℕ) × (first_divider ds n i ≡ i + j) × Finds ds n j
unfolding first_divider
first_divider-Finds [] n i =
    (0, omega arith, (omega arith, λ k l. absurd (omega arith), λ l. absurd (omega arith)))
first_divider-Finds (d ∷ ds) n i = elim (Bool-cases (leb n d)) [
  | inl e ↦ (
    0,
    rw (e, first_divider) (omega arith),
    (omega arith, λ k l. absurd (omega arith), λ l. leb→le n d e),
  )
  | inr e ↦
      let (j, f, (l, before, here)) = first_divider-Finds ds n (i + 1) in
      let low : d < n = ground arith in
      (
        suc j,
        rw (e, first_divider) (f ∙ omega arith),
        (omega arith, later d ds n j low before, λ m. here (omega arith)),
      )
]

mcfg_small :
    (i : ℕ)
    → i ≤ 10
    → bit_and (bit_or (shl (bit_and i 0xF) 2) (shl 1 15)) (not32 (shl 1 15)) ≡ i * 4
mcfg_small i h =
    let low : bit_and i 0xF ≡ i = omega (arith, bit_and-mask 4 i) in
    rw low (
      eq_of_bits 32 (bit_and (bit_or (shl i 2) (shl 1 15)) (not32 (shl 1 15))) (i * 4)
        (omega (arith, bit_and-le (bit_or (shl i 2) (shl 1 15)) (not32 (shl 1 15)))) (omega arith)
        λ k l. ground (
          arith,
          bit_at-bit_and_not (bit_or (shl i 2) (shl 1 15)) 15 k (omega arith) l,
          bit_at-bit_or-shl (shl i 2) 15 k,
          bit_at_above 6 (i * 4) k (omega arith),
        ))

zero_add : (j : ℕ) → 0 + j ≡ j
zero_add j = omega arith

few : (j c : ℕ) → (8 < j → 40 < c / max_clock) → c < 102_500_000 → j < 9
few j c h l = grind (arith, h)

-- For a system clock below 102.5 MHz, rflpc_eth_init writes to MCFG the number of a divider of its table, from 1,
-- that is at least the frequency divided by 2.5 MHz and rounded down, and the smallest such one.
pub mii_divider :
    (reset : Emac → Emac) (system_clock : ℕ) (e : Emac)
    → system_clock < 102_500_000
    → (j : ℕ) × ((set_registers reset system_clock e).mcfg ≡ (j + 1) * 4)
      × (j < length clock_dividers)
      × ((k : ℕ) → k < j → get_or clock_dividers k 0 < system_clock / max_clock)
      × (system_clock / max_clock ≤ get_or clock_dividers j 0)
unfolding set_registers mcfg_of mii_index
mii_divider reset system_clock e slow =
    let (j, f, (l, before, here)) =
      first_divider-Finds clock_dividers (system_clock / max_clock) 0 in
    let inside = few j system_clock (before 8) slow in
    (j, rw (f, zero_add j) (mcfg_small (j + 1) (omega arith)), inside, before, here inside)
