-- ===== src/Ethernet/Link/Modes.antt =====
-- rflpc_eth_set_link_mode and rflpc_eth_get_link_mode: the PHY and the Ethernet block agree on the mode.
use native.Mathlib.Nat.{one-le-pow}
use rflpc.Base.{
  ℕ, ◌-◌, ◌*◌, ◌^◌, ◌<◌, ◌==◌, if◌then◌else◌, bit_and, some, ◌≡◌, refl, ap, ◌∙◌, arith,
}
use rflpc.Base.Bits.{bit_at, bit_at-lt}
use rflpc.Base.Word.{
  shl, not32, u16, bit_and-shl_one, bit_at-mod, bit_at-bit_or-shl, bit_at-bit_and_not,
}
use rflpc.Ethernet.{Emac}
use rflpc.Ethernet.Mii.{Mii}
use rflpc.Ethernet.Link.{
  phy_bmcr, has, set_when, supp_100mbps, link_mode_speed_bit, link_mode_duplex_bit, bmcr_of_mode,
  mode_of_physts, adopt, set_link_mode,
}

pub has-eq : (x n : ℕ) → has x (shl 1 n) ≡ (bit_at x n == 1)
has-eq x n = rw (bit_and-shl_one x n) (ground (arith, bit_at-lt x n, one-le-pow n 2))

-- The bit that follows a flag.
pub bit_at-set_when :
    (mode j r n k : ℕ)
    → n < 32
    → k < 32
    → bit_at (set_when (has mode (shl 1 j)) r (shl 1 n)) k
      ≡ (if k == n then bit_at mode j else bit_at r k)
bit_at-set_when mode j r n k hn hk =
    rw (has-eq mode j)
      (ground (arith, bit_at-lt mode j, bit_at-bit_or-shl r n k, bit_at-bit_and_not r n k hn hk))

-- The bits of the word that goes to the PHY.
bmcr_bits :
    (mode v k : ℕ)
    → k < 16
    → bit_at (bmcr_of_mode mode v) k
      ≡ (if k == 13 then bit_at mode 0 else if k == 8 then bit_at mode 1 else bit_at v k)
unfolding bmcr_of_mode
bmcr_bits mode v k hk =
    let duplex = set_when (has mode link_mode_duplex_bit) v (shl 1 8) in
    bit_at-mod 16 (set_when (has mode link_mode_speed_bit) duplex (shl 1 13)) k hk
    ∙ bit_at-set_when mode 0 duplex 13 k (omega arith) (omega arith)
    ∙ ap (λ (b : ℕ). if k == 13 then bit_at mode 0 else b)
        (bit_at-set_when mode 1 v 8 k (omega arith) (omega arith))

supp_bit :
    (mode : ℕ) → (if has mode link_mode_speed_bit then supp_100mbps else 0) ≡ bit_at mode 0 * 2 ^ 8
supp_bit mode = rw (has-eq mode 0) (ground (arith, bit_at-lt mode 0))

before_bits :
    (v : ℕ)
    → (bit_at (u16 (bit_and v (not32 (shl 1 12)))) 15 ≡ bit_at v 15)
      × (bit_at (u16 (bit_and v (not32 (shl 1 12)))) 12 ≡ 0)
before_bits v =
    let bit = λ (k : ℕ) (h : k < 16).
      bit_at-mod 16 (bit_and v (not32 (shl 1 12))) k h
      ∙ bit_at-bit_and_not v 12 k (omega arith) (omega arith) in
    (bit 15 (omega arith), bit 12 (omega arith))

word_bits :
    (mode v : ℕ)
    → (bit_at (bmcr_of_mode mode v) 13 ≡ bit_at mode 0)
      × (bit_at (bmcr_of_mode mode v) 8 ≡ bit_at mode 1)
      × (bit_at (bmcr_of_mode mode v) 12 ≡ bit_at v 12)
      × (bit_at (bmcr_of_mode mode v) 15 ≡ bit_at v 15)
word_bits mode v = (
  bmcr_bits mode v 13 (omega arith),
  bmcr_bits mode v 8 (omega arith),
  bmcr_bits mode v 12 (omega arith),
  bmcr_bits mode v 15 (omega arith),
)

-- The registers of the Ethernet block after the mode was taken over.
pub adopt_bits :
    (mode : ℕ) (e : Emac)
    → ((adopt mode e).supp ≡ bit_at mode 0 * 2 ^ 8)
      × (bit_at (adopt mode e).mac2 0 ≡ bit_at mode 1)
      × (bit_at (adopt mode e).command 10 ≡ bit_at mode 1)
unfolding adopt
adopt_bits mode e = (
  supp_bit mode,
  bit_at-set_when mode 1 e.mac2 0 0 (omega arith) (omega arith),
  bit_at-set_when mode 1 e.command 10 10 (omega arith) (omega arith),
)

pub mode_of_physts_bits :
    (v : ℕ)
    → (bit_at (mode_of_physts v) 0 ≡ 1 - bit_at v 1) × (bit_at (mode_of_physts v) 1 ≡ bit_at v 2)
unfolding mode_of_physts
mode_of_physts_bits v = rw (has-eq v 1, has-eq v 2) (ground (arith, bit_at-lt v 1, bit_at-lt v 2))

-- What the data sheet of the PHY says of its control register, outside a reset: `bmcr` is its value, and the
-- bits for the speed, the duplex and the negotiation keep what is written.
pub record KeepsBmcr {H : Type 0} (mii : Mii H) (bmcr : H → ℕ) : Type 0 where
  pub reads : (h : H) → (h' : H) × (mii.read phy_bmcr h ≡ some (bmcr h, h')) × (bmcr h' ≡ bmcr h)
  pub writes :
      (v : ℕ) (h : H)
      → bit_at v 15 ≡ 0
      → (h' : H) × (mii.write phy_bmcr v h ≡ some h')
        × (bit_at (bmcr h') 13 ≡ bit_at v 13)
        × (bit_at (bmcr h') 8 ≡ bit_at v 8)
        × (bit_at (bmcr h') 12 ≡ bit_at v 12)
        × (bit_at (bmcr h') 15 ≡ 0)

module _ {H : Type 0} (mii : Mii H) (bmcr : H → ℕ) (keeps : KeepsBmcr mii bmcr) where
  -- When the PHY is not in a reset, rflpc_eth_set_link_mode returns. The speed and the duplex bits of the PHY are
  -- those of the mode and its negotiation is off; the Ethernet block has the same speed in SUPP and the same
  -- duplex mode in MAC2 and in Command.
  pub set_link_mode-Agrees :
      (mode : ℕ) (e : Emac) (h : H)
      → bit_at (bmcr h) 15 ≡ 0
      → (e' : Emac) × (h' : H) × (set_link_mode mii mode e h ≡ some (e', h'))
        × (bit_at (bmcr h') 13 ≡ bit_at mode 0)
        × (bit_at (bmcr h') 8 ≡ bit_at mode 1)
        × (bit_at (bmcr h') 12 ≡ 0)
        × (e'.supp ≡ bit_at mode 0 * 2 ^ 8)
        × (bit_at e'.mac2 0 ≡ bit_at mode 1)
        × (bit_at e'.command 10 ≡ bit_at mode 1)
  unfolding set_link_mode adopt
  set_link_mode-Agrees mode e h r =
      let (h₁, read₁, same₁) = keeps.reads h in
      let before = u16 (bit_and (bmcr h) (not32 (shl 1 12))) in
      let (reset, auto) = before_bits (bmcr h) in
      let (h₂, write₁, s₂, d₂, a₂, r₂) = keeps.writes before h₁ (reset ∙ r) in
      let (h₃, read₂, same₃) = keeps.reads h₂ in
      let (speed, duplex, same, still) = word_bits mode (bmcr h₂) in
      let (h₄, write₂, s₄, d₄, a₄, r₄) =
        keeps.writes (bmcr_of_mode mode (bmcr h₂)) h₃ (still ∙ r₂) in
      let (m, n, o) = adopt_bits mode e in
      (
        adopt mode e,
        h₄,
        rw (read₁, write₁, read₂, write₂) refl,
        s₄ ∙ speed,
        d₄ ∙ duplex,
        a₄ ∙ same ∙ a₂ ∙ auto,
        m,
        n,
        o,
      )
