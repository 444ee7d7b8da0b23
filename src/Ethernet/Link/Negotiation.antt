-- ===== src/Ethernet/Link/Negotiation.antt =====
-- rflpc_eth_link_auto_negociate: it returns, and the Ethernet block takes over what was negotiated.
use rflpc.Base.{
  ℕ, zero, suc, ◌-◌, ◌*◌, ◌^◌, ◌<◌, ◌==◌, if◌then◌else◌, bit_and, bit_or, Bool, true, false, some,
  ◌≡◌, refl, ap, ◌∙◌, Bool-cases, inl, inr, arith,
}
use rflpc.Base.Bits.{bit_at, bit_at-lt}
use rflpc.Base.Word.{shl, bit_and-shl_one}
use rflpc.Ethernet.{Emac}
use rflpc.Ethernet.Mii.{Mii}
use rflpc.Ethernet.Link.{
  phy_bmcr, phy_bmsr, phy_anar, phy_physts, minus_one, has, advertised, adopt, mode_of_physts,
  link_state, get_link_mode, wait_negotiated, start_negotiation, end_negotiation,
  link_auto_negociate,
}
use rflpc.Ethernet.Link.Modes.{has-eq, adopt_bits, mode_of_physts_bits}

-- What the data sheet of the PHY says while the link is up: `left` reads of BMSR after the negotiation was
-- started it is complete, and only then does the status register have the value `agreed`.
pub record Negotiates {H : Type 0} (mii : Mii H) (agreed : ℕ) : Type 1 where
  pub Up : H → Type 0
  pub left : H → ℕ
  pub latency : ℕ
  pub bmsr :
      (h : H)
      → Up h
      → (v : ℕ) × (h' : H) × (mii.read phy_bmsr h ≡ some (v, h'))
        × (bit_at v 2 ≡ 1)
        × (bit_at v 5 ≡ (if left h == 0 then 1 else 0))
        × (left h' ≡ left h - 1)
        × Up h'
  pub anar : (h : H) → Up h → (v : ℕ) × (h' : H) × (mii.read phy_anar h ≡ some (v, h')) × Up h'
  pub set_anar : (v : ℕ) (h : H) → Up h → (h' : H) × (mii.write phy_anar v h ≡ some h') × Up h'
  pub bmcr : (h : H) → Up h → (v : ℕ) × (h' : H) × (mii.read phy_bmcr h ≡ some (v, h')) × Up h'
  pub set_bmcr :
      (v : ℕ) (h : H)
      → Up h
      → (h' : H) × (mii.write phy_bmcr (bit_or (bit_or v (shl 1 12)) (shl 1 9)) h ≡ some h')
        × (left h' ≡ latency)
        × Up h'
  pub physts : (h : H) → Up h → left h ≡ 0 → (h' : H) × (mii.read phy_physts h ≡ some (agreed, h'))

state_of : (v b : ℕ) → bit_at v 2 ≡ b → (bit_and v (shl 1 2) == shl 1 2) ≡ (b == 1)
state_of v b e = rw (bit_and-shl_one v 2, e) (ground (arith, bit_at-lt v 2))

done_test : (k : ℕ) → ((if k == 0 then 1 else 0) == 1) ≡ (k == 0)
done_test k = ground arith

module _ {H : Type 0} (mii : Mii H) where
  -- The link is down: so says a read of BMSR.
  abbrev pub IsDown : H → Type 0
  IsDown h = (v : ℕ) × (h' : H) × (mii.read phy_bmsr h ≡ some (v, h')) × (bit_at v 2 ≡ 0)

  wait_step :
      (fuel : ℕ) (h : H) (v : ℕ) (h' : H) (b : Bool)
      → mii.read phy_bmsr h ≡ some (v, h')
      → has v (shl 1 5) ≡ b
      → wait_negotiated mii (suc fuel) h ≡ (if b then some h' else wait_negotiated mii fuel h')
  unfolding wait_negotiated
  wait_step fuel h v h' true r t =
      rw r (ap (λ c. elim c [ true ↦ some h' | false ↦ wait_negotiated mii fuel h' ]) t)
  wait_step fuel h v h' false r t =
      rw r (ap (λ c. elim c [ true ↦ some h' | false ↦ wait_negotiated mii fuel h' ]) t)

  -- When the link is down, rflpc_eth_link_auto_negociate returns -1 and the Ethernet block is as before.
  pub negotiation_down :
      (fuel mode : ℕ) (e : Emac) (h : H)
      → IsDown h
      → (h' : H) × (link_auto_negociate mii fuel mode e h ≡ some (minus_one, e, h'))
  unfolding link_auto_negociate link_state
  negotiation_down fuel mode e h (v, h', r, b) = (h', rw (r, state_of v 0 b) refl)

  module _ (agreed : ℕ) (n : Negotiates mii agreed) where
    link_state_up :
        (h : H)
        → n.Up h
        → (h' : H) × (link_state mii h ≡ some (true, h')) × (n.left h' ≡ n.left h - 1) × n.Up h'
    unfolding link_state
    link_state_up h u =
        let (v, h', r, b, c, l, u') = n.bmsr h u in (h', rw (r, state_of v 1 b) refl, l, u')

    wait_negotiated_ends :
        (fuel : ℕ) (h : H)
        → n.Up h
        → n.left h < fuel
        → (h' : H) × (wait_negotiated mii fuel h ≡ some h') × (n.left h' ≡ 0) × n.Up h'
    unfolding wait_negotiated
    wait_negotiated_ends zero h u l = absurd (omega arith)
    wait_negotiated_ends (suc fuel) h u l =
        let (v, h', r, b, c, l', u') = n.bmsr h u in
        let test : has v (shl 1 5) ≡ (n.left h == 0) = rw (has-eq v 5, c) (done_test (n.left h)) in
        elim (Bool-cases (n.left h == 0)) [
          | inl e ↦ (h', wait_step fuel h v h' true r (test ∙ e), ground arith, u')
          | inr e ↦
              let (h'', s, z, u'') = wait_negotiated_ends fuel h' u' (ground arith) in
              (h'', wait_step fuel h v h' false r (test ∙ e) ∙ s, z, u'')
        ]

    start_negotiation_starts :
        (mode : ℕ) (h : H)
        → n.Up h
        → (h' : H) × (start_negotiation mii mode h ≡ some h') × (n.left h' ≡ n.latency) × n.Up h'
    unfolding start_negotiation
    start_negotiation_starts mode h u =
        let (anar, h₁, r₁, u₁) = n.anar h u in
        let (h₂, w₂, u₂) = n.set_anar (advertised mode anar) h₁ u₁ in
        let (bmcr, h₃, r₃, u₃) = n.bmcr h₂ u₂ in
        let (h₄, w₄, l, u₄) = n.set_bmcr bmcr h₃ u₃ in (h₄, rw (r₁, w₂, r₃, w₄) refl, l, u₄)

    -- While the link is up and fuel is given for the reads of BMSR that the negotiation takes,
    -- rflpc_eth_link_auto_negociate returns 0, whatever mode it asked for, and the Ethernet block has the
    -- speed and the duplex mode that the status register of the PHY then shows.
    pub negotiation_up :
        (fuel mode : ℕ) (e : Emac) (h : H)
        → n.Up h
        → n.latency < fuel
        → (e' : Emac) × (h' : H) × (link_auto_negociate mii fuel mode e h ≡ some (0, e', h'))
          × (e'.supp ≡ (1 - bit_at agreed 1) * 2 ^ 8)
          × (bit_at e'.mac2 0 ≡ bit_at agreed 2)
          × (bit_at e'.command 10 ≡ bit_at agreed 2)
    unfolding link_auto_negociate end_negotiation get_link_mode
    negotiation_up fuel mode e h u l =
        let (h₁, up₁, left₁, u₁) = link_state_up h u in
        let (h₂, started, left₂, u₂) = start_negotiation_starts mode h₁ u₁ in
        let (h₃, ended, complete, u₃) = wait_negotiated_ends fuel h₂ u₂ (rw left₂ l) in
        let (h₄, up₂, left₄, u₄) = link_state_up h₃ u₃ in
        let (h₅, shown) = n.physts h₄ u₄ (omega (arith, left₄, complete)) in
        let (speed, duplex) = mode_of_physts_bits agreed in
        let (supp, mac2, command) = adopt_bits (mode_of_physts agreed) e in
        (
          adopt (mode_of_physts agreed) e,
          h₅,
          rw (up₁, started, ended, up₂, shown) refl,
          supp ∙ ap (λ (b : ℕ). b * 2 ^ 8) speed,
          mac2 ∙ duplex,
          command ∙ duplex,
        )
