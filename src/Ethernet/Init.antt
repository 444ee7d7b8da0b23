-- ===== src/Ethernet/Init.antt =====
-- rflpc17xx/drivers/ethernet.c: rflpc_eth_init, with the divider of the management clock. The frequency of the
-- system and the values that a reset gives to the registers are arguments.
pub mod Divider
use rflpc.Base.{
  ℕ, zero, suc, true, false, ◌+◌, ◌-◌, ◌*◌, ◌/◌, ◌^◌, ◌==◌, if◌then◌else◌, leb, bit_and, bit_or,
  List, [], ◌∷◌, Option, none, some, ◌>>=◌,
}
use rflpc.Base.Word.{shl, not32}
use rflpc.Pin.{Pincon, pin_set}
use rflpc.Ethernet.{Emac}
use rflpc.Ethernet.Mii.{Mii}
use rflpc.Ethernet.Link.{phy_bmcr, has}

-- The power register of the system, the pins, and the Ethernet block.
pub record Device : Type 0 where
  pub pconp : ℕ
  pub pincon : Pincon
  pub emac : Emac

abbrev pub clock_dividers : List ℕ
clock_dividers = 4 ∷ 6 ∷ 8 ∷ 10 ∷ 14 ∷ 20 ∷ 28 ∷ 36 ∷ 40 ∷ []

-- `RFLPC_ETH_MAX_CLOCK`
abbrev pub max_clock : ℕ
max_clock = 2_500_000

-- The loop over the dividers, from the index `i`.
unfoldable pub first_divider : List ℕ → ℕ → ℕ → ℕ
first_divider [] divider i = i
first_divider (d ∷ ds) divider i = elim (leb divider d) [
  | true ↦ i
  | false ↦ first_divider ds divider (i + 1)
]

-- `i` after the loop and its increment.
unfoldable pub mii_index : ℕ → ℕ
unfolding first_divider
mii_index system_clock = first_divider clock_dividers (system_clock / max_clock) 0 + 1

-- `LPC_EMAC->MCFG`
unfoldable pub mcfg_of : ℕ → ℕ
unfolding mii_index
mcfg_of system_clock =
    let written = bit_or (shl (bit_and (mii_index system_clock) 0xF) 2) (shl 1 15) in
    bit_and written (not32 (shl 1 15))

-- `_eth_setup_pins`: the pins of port 1.
abbrev pub pins : List ℕ
pins = 32 ∷ 33 ∷ 36 ∷ 40 ∷ 41 ∷ 42 ∷ 46 ∷ 47 ∷ 48 ∷ 49 ∷ []

unfoldable pub setup_pins : List ℕ → Pincon → Pincon
setup_pins [] c = c
setup_pins (p ∷ ps) c = setup_pins ps (pin_set p 1 0 0 c)

-- The accesses to the registers of the Ethernet block, up to the reset of the PHY.
unfoldable pub set_registers : (Emac → Emac) → ℕ → Emac → Emac
unfolding mcfg_of
set_registers reset system_clock e =
    let e' = reset (record e { mac1 = shl 1 15; command = shl 1 3 }) in
    record e' {
      mac1 = 0;
      mac2 = bit_or (bit_or (shl 1 0) (shl 1 4)) (shl 1 5);
      ipgt = 0x15;
      ipgr = bit_or 0x12 (shl 0xC 8);
      clrt = bit_or 0xF (shl 0x37 8);
      supp = shl 1 8;
      maxf = 1538;
      mcfg = mcfg_of system_clock;
      command = bit_or (bit_or (shl 1 9) (shl 1 10)) (shl 1 7);
    }

module _ {H : Type 0} (mii : Mii H) where
  -- The wait for the end of the PHY's reset.
  unfoldable pub wait_reset : ℕ → H → Option H
  wait_reset zero h = none
  wait_reset (suc fuel) h = do
    (v, h₁) ← mii.read phy_bmcr h
    elim (has v (shl 1 15)) [ true ↦ wait_reset fuel h₁ | false ↦ some h₁ ]

  -- `rflpc_eth_init`
  unfoldable pub init : (Emac → Emac) → ℕ → ℕ → Device → H → Option (ℕ × Device × H)
  unfolding setup_pins set_registers wait_reset
  init reset system_clock fuel d h = do
    h₁ ← mii.write phy_bmcr (shl 1 15) h
    h₂ ← wait_reset fuel h₁
    some (
      1,
      record {
        pconp = bit_or d.pconp (shl 1 30);
        pincon = setup_pins pins d.pincon;
        emac = set_registers reset system_clock d.emac;
      },
      h₂,
    )
