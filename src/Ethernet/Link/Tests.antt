-- ===== src/Ethernet/Link/Tests.antt =====
-- The link on concrete PHYs.
use rflpc.Base.{ℕ, ◌-◌, ◌*◌, ◌^◌, ◌==◌, if◌then◌else◌, some, ◌≡◌, refl, arith}
use rflpc.Base.Bits.{bit_at}
use rflpc.Ethernet.{Emac}
use rflpc.Ethernet.Mii.{Mii}
use rflpc.Ethernet.Link.{phy_bmcr, phy_bmsr, phy_physts, set_link_mode, link_auto_negociate}
use rflpc.Ethernet.Link.Modes.{KeepsBmcr, set_link_mode-Agrees}
use rflpc.Ethernet.Link.Negotiation.{Negotiates, negotiation_up}
use rflpc.Ethernet.Tests.{rings}

-- A PHY that has only its control register.
abbrev control_only : Mii ℕ
control_only = record { read = λ r h. some (h, h); write = λ r v h. some v }

control_keeps : KeepsBmcr control_only (λ h. h)
control_keeps = record {
  reads = λ h. (h, refl, refl);
  writes = λ v h e. (v, refl, refl, refl, refl, e);
}

set_link_mode-Agrees_example :
    (e' : Emac) × (h' : ℕ) × (set_link_mode control_only 1 rings 0x3100 ≡ some (e', h'))
    × (bit_at h' 13 ≡ 1)
    × (bit_at h' 8 ≡ 0)
    × (bit_at h' 12 ≡ 0)
    × (e'.supp ≡ 1 * 2 ^ 8)
    × (bit_at e'.mac2 0 ≡ 0)
    × (bit_at e'.command 10 ≡ 0)
set_link_mode-Agrees_example =
    set_link_mode-Agrees control_only (λ h. h) control_keeps 1 rings 0x3100 refl

-- A PHY that needs two reads of BMSR to negotiate 100 Mbps and full duplex. Its state is what is left of them.
abbrev bmsr_at : ℕ → ℕ
bmsr_at h = if h == 0 then 0x24 else 4

abbrev negotiating : Mii ℕ
negotiating = record {
  read = λ r h.
      if r == phy_bmsr
      then some (bmsr_at h, h - 1)
      else if r == phy_physts
      then some (4, h)
      else some (0, h);
  write = λ r v h. if r == phy_bmcr then some 2 else some h;
}

negotiates : Negotiates negotiating 4
negotiates = record {
  Up = λ h. h ≡ h;
  left = λ h. h;
  latency = 2;
  bmsr = λ h u. (bmsr_at h, h - 1, refl, ground arith, ground arith, refl, refl);
  anar = λ h u. (0, h, refl, u);
  set_anar = λ v h u. (h, refl, u);
  bmcr = λ h u. (0, h, refl, u);
  set_bmcr = λ v h u. (2, refl, refl, refl);
  physts = λ h u z. (h, refl);
}

negotiation_up_example :
    (e' : Emac) × (h' : ℕ) × (link_auto_negociate negotiating 3 3 rings 0 ≡ some (0, e', h'))
    × (e'.supp ≡ (1 - 0) * 2 ^ 8)
    × (bit_at e'.mac2 0 ≡ 1)
    × (bit_at e'.command 10 ≡ 1)
unfolding negotiates
negotiation_up_example = negotiation_up negotiating 4 negotiates 3 3 rings 0 refl (omega arith)
