-- ===== src/Ethernet/Link.antt =====
-- rflpc17xx/drivers/ethernet.c: the state, the negotiation and the mode of the link. The PHY's registers are
-- accessed through `Mii`; an access that has no result still waits.
pub mod Modes
pub mod Negotiation
mod Tests
use rflpc.Base.{
  ℕ, zero, suc, true, false, ◌-◌, ◌*◌, ◌^◌, ◌==◌, if◌then◌else◌, bit_and, bit_or, Bool, Option,
  none, some, ◌>>=◌, ◌>>◌,
}
use rflpc.Base.Word.{shl, not32, u16, u32}
use rflpc.Ethernet.{Emac}
use rflpc.Ethernet.Mii.{Mii}

-- The registers of the PHY.
abbrev pub phy_bmcr : ℕ
phy_bmcr = 0x0

abbrev pub phy_bmsr : ℕ
phy_bmsr = 0x1

abbrev pub phy_anar : ℕ
phy_anar = 0x4

abbrev pub phy_physts : ℕ
phy_physts = 0x10

-- `-1` as the machine's `int`.
abbrev pub minus_one : ℕ
minus_one = 2 ^ 32 - 1

-- `if (word & flag)`
abbrev pub has : ℕ → ℕ → Bool
has word flag = if bit_and word flag == 0 then false else true

-- `word |= flag` or `word &= ~flag`
abbrev pub set_when : Bool → ℕ → ℕ → ℕ
set_when true word flag = bit_or word flag
set_when false word flag = bit_and word (not32 flag)

-- `RFLPC_ETH_LINK_MODE_…`
abbrev pub link_mode_speed_bit : ℕ
link_mode_speed_bit = shl 1 0

abbrev pub link_mode_duplex_bit : ℕ
link_mode_duplex_bit = shl 1 1

abbrev pub link_mode_100hd : ℕ
link_mode_100hd = link_mode_speed_bit

abbrev pub link_mode_10hd : ℕ
link_mode_10hd = 0

abbrev pub link_mode_100fd : ℕ
link_mode_100fd = bit_or link_mode_speed_bit link_mode_duplex_bit

abbrev pub link_mode_10fd : ℕ
link_mode_10fd = link_mode_duplex_bit

abbrev pub mac2_full_duplex : ℕ
mac2_full_duplex = shl 1 0

abbrev pub cmd_full_duplex : ℕ
cmd_full_duplex = shl 1 10

abbrev pub supp_100mbps : ℕ
supp_100mbps = shl 1 8

-- The capabilities that rflpc_eth_link_auto_negociate writes, by the switch's cases.
unfoldable pub advertised : ℕ → ℕ → ℕ
advertised max_desired_mode anar =
    let none_left = bit_and anar (not32 (bit_or (bit_or (shl 1 6) (shl 1 7)) (shl 1 8))) in
    let least = bit_or none_left (shl 1 5) in
    u16 (
      if max_desired_mode == link_mode_100fd
      then bit_or (bit_or least (shl 1 8)) (shl 1 7)
      else if max_desired_mode == link_mode_100hd
      then bit_or least (shl 1 7)
      else if max_desired_mode == link_mode_10fd
      then bit_or least (shl 1 6)
      else least)

-- The end of rflpc_eth_link_auto_negociate: the Ethernet block follows the mode.
unfoldable pub adopt : ℕ → Emac → Emac
adopt mode e = record e {
  supp = if has mode link_mode_speed_bit then supp_100mbps else 0;
  mac2 = set_when (has mode link_mode_duplex_bit) e.mac2 mac2_full_duplex;
  command = set_when (has mode link_mode_duplex_bit) e.command cmd_full_duplex;
}

-- `rflpc_eth_get_link_mode` from the register, with RFLPC_ETH_USE_EXTENDED_MII.
unfoldable pub mode_of_physts : ℕ → ℕ
mode_of_physts physts =
    if has physts (shl 1 1)
    then if has physts (shl 1 2) then link_mode_10fd else link_mode_10hd
    else if has physts (shl 1 2)
    then link_mode_100fd
    else link_mode_100hd

-- The word that rflpc_eth_set_link_mode writes last to the PHY.
unfoldable pub bmcr_of_mode : ℕ → ℕ → ℕ
bmcr_of_mode mode bmcr =
    let duplex = set_when (has mode link_mode_duplex_bit) bmcr (shl 1 8) in
    u16 (set_when (has mode link_mode_speed_bit) duplex (shl 1 13))

module _ {H : Type 0} (mii : Mii H) where
  -- `rflpc_eth_link_state`
  unfoldable pub link_state : H → Option (Bool × H)
  link_state h = do (v, h₁) ← mii.read phy_bmsr h; some (bit_and v (shl 1 2) == shl 1 2, h₁)

  -- `rflpc_eth_get_link_mode`
  unfoldable pub get_link_mode : H → Option (ℕ × H)
  unfolding mode_of_physts
  get_link_mode h = do (v, h₁) ← mii.read phy_physts h; some (mode_of_physts v, h₁)

  -- The wait for the end of the negotiation.
  unfoldable pub wait_negotiated : ℕ → H → Option H
  wait_negotiated zero h = none
  wait_negotiated (suc fuel) h = do
    (v, h₁) ← mii.read phy_bmsr h
    elim (has v (shl 1 5)) [ true ↦ some h₁ | false ↦ wait_negotiated fuel h₁ ]

  -- What rflpc_eth_link_auto_negociate does before it waits.
  unfoldable pub start_negotiation : ℕ → H → Option H
  unfolding advertised
  start_negotiation max_desired_mode h = do
    (anar, h₁) ← mii.read phy_anar h
    h₂ ← mii.write phy_anar (advertised max_desired_mode anar) h₁
    (bmcr, h₃) ← mii.read phy_bmcr h₂
    mii.write phy_bmcr (bit_or (bit_or bmcr (shl 1 12)) (shl 1 9)) h₃

  -- What it does after it has waited.
  unfoldable pub end_negotiation : Emac → H → Option (ℕ × Emac × H)
  unfolding link_state get_link_mode adopt
  end_negotiation e h = do
    (up, h₁) ← link_state h
    elim up [
      | false ↦ some (minus_one, e, h₁)
      | true ↦ get_link_mode h₁ >>= λ (r : ℕ × H). some (0, adopt r.0 e, r.1)
    ]

  -- `rflpc_eth_link_auto_negociate`
  unfoldable pub link_auto_negociate : ℕ → ℕ → Emac → H → Option (ℕ × Emac × H)
  unfolding link_state start_negotiation wait_negotiated end_negotiation
  link_auto_negociate fuel max_desired_mode e h = do
    (up, h₁) ← link_state h
    elim up [
      | false ↦ some (minus_one, e, h₁)
      | true ↦ start_negotiation max_desired_mode h₁ >>= wait_negotiated fuel >>= end_negotiation e
    ]

  -- `rflpc_eth_set_link_mode`
  unfoldable pub set_link_mode : ℕ → Emac → H → Option (Emac × H)
  unfolding bmcr_of_mode
  set_link_mode mode e h = do
    (before, h₁) ← mii.read phy_bmcr h
    h₂ ← mii.write phy_bmcr (u16 (bit_and before (not32 (shl 1 12)))) h₁
    (bmcr, h₃) ← mii.read phy_bmcr h₂
    h₄ ← mii.write phy_bmcr (bmcr_of_mode mode bmcr) h₃
    some (
      record e {
        mac2 = set_when (has mode link_mode_duplex_bit) e.mac2 mac2_full_duplex;
        command = set_when (has mode link_mode_duplex_bit) e.command cmd_full_duplex;
        supp = if has mode link_mode_speed_bit then supp_100mbps else 0;
      },
      h₄,
    )
