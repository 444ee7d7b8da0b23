-- ===== src/Ethernet/Mii/Cycles.antt =====
-- The driver's accesses to the PHY against what the manual says of the management registers.
use rflpc.Base.{
  ℕ, zero, suc, ◌-◌, ◌*◌, ◌≤◌, ◌<◌, ◌==◌, true, false, min, bit_and, bit_or, some, ◌≡◌, refl, sym,
  ap₂, ◌∙◌, Bool-cases, inl, inr, arith,
}
use rflpc.Base.Word.{shl, u16}
use rflpc.Ethernet.Mii.{
  Station, madr, mwtd, mcmd, mrdd, mind, mind_busy, mind_not_valid, phy_addr, wait_busy, wait_valid,
  write_to_phy_register_with_addr, read_from_phy_register_with_addr, phy,
}

-- The word that selects a register of the PHY.
abbrev pub select : ℕ → ℕ
select reg = bit_or (shl phy_addr 8) reg

-- A PHY by itself: what a read of a register gives, and what a read and a write leave.
pub record Phy (P : Type 0) : Type 0 where
  pub value : ℕ → P → ℕ
  pub read_leaves : ℕ → P → P
  pub write_leaves : ℕ → ℕ → P → P

-- What the manual says of the registers: a cycle that is requested while none is under way takes up to `latency` reads
-- of MIND, which show that it is, and `left` of them are left. `view` is the PHY as the cycles that are complete have
-- left it, `due` the PHY, and `word` the word for MRDD, once the cycle under way is complete.
pub record FollowsManual {H P : Type 0} (s : Station H) (p : Phy P) (view : H → P) : Type 0 where
  pub left : H → ℕ
  pub due : H → P
  pub word : H → ℕ
  pub latency : ℕ
  pub polls_busy : (h : H) → bit_and (s.load mind h).0 mind_busy ≡ min 1 (left h)
  pub polls_valid : (h : H) → bit_and (s.load mind h).0 mind_not_valid ≡ 4 * min 1 (left h)
  pub polls_left : (h : H) → left (s.load mind h).1 ≡ left h - 1
  pub polls_due : (h : H) → due (s.load mind h).1 ≡ due h
  pub polls_word : (h : H) → word (s.load mind h).1 ≡ word h
  pub complete : (h : H) → left h ≡ 0 → view h ≡ due h
  pub write_left : (r v : ℕ) (h : H) → left (s.store mwtd v (s.store madr (select r) h)) ≤ latency
  pub write_due :
      (r v : ℕ) (h : H)
      → left h ≡ 0
      → due (s.store mwtd v (s.store madr (select r) h)) ≡ p.write_leaves r v (view h)
  pub read_left : (r : ℕ) (h : H) → left (s.store mcmd 1 (s.store madr (select r) h)) ≤ latency
  pub read_word :
      (r : ℕ) (h : H)
      → left h ≡ 0
      → word (s.store mcmd 1 (s.store madr (select r) h)) ≡ p.value r (view h)
  pub read_due :
      (r : ℕ) (h : H)
      → left h ≡ 0
      → due (s.store mcmd 1 (s.store madr (select r) h)) ≡ p.read_leaves r (view h)
  pub end_shown : (h : H) → left h ≡ 0 → (s.load mrdd (s.store mcmd 0 h)).0 ≡ word h
  pub end_view : (h : H) → left h ≡ 0 → view (s.load mrdd (s.store mcmd 0 h)).1 ≡ view h
  pub end_left : (h : H) → left h ≡ 0 → left (s.load mrdd (s.store mcmd 0 h)).1 ≡ 0

still_left :
    (n k fuel : ℕ) (busy valid : ℕ) {l₂ : ℕ}
    → busy ≡ min 1 n
    → valid ≡ 4 * min 1 k
    → k ≡ n - 1
    → l₂ ≡ k - 1
    → n < suc fuel
    → (bit_or busy valid == 0) ≡ false
    → l₂ < fuel
still_left zero k fuel busy valid b v o t l e =
    let b' : busy ≡ 0 = omega arith in
    let v' : valid ≡ 0 = omega arith in
    let f : (bit_or 0 0 == 0) ≡ false = ap₂ (λ x y. bit_or x y == 0) (sym b') (sym v') ∙ e in cc
still_left (suc n) k fuel busy valid b v o t l e = omega arith

none_left :
    (n k : ℕ) (busy valid : ℕ)
    → busy ≡ min 1 n
    → valid ≡ 4 * min 1 k
    → k ≡ n - 1
    → (bit_or busy valid == 0) ≡ true
    → n ≡ 0
none_left zero k busy valid b v o e = refl
none_left (suc n) zero busy valid b v o e =
    let b' : busy ≡ 1 = omega arith in
    let v' : valid ≡ 0 = omega arith in
    let f : (bit_or 1 0 == 0) ≡ true = ap₂ (λ x y. bit_or x y == 0) (sym b') (sym v') ∙ e in
    absurd (ground (arith, f))
none_left (suc n) (suc k) busy valid b v o e =
    let b' : busy ≡ 1 = omega arith in
    let v' : valid ≡ 4 = omega arith in
    let f : (bit_or 1 4 == 0) ≡ true = ap₂ (λ x y. bit_or x y == 0) (sym b') (sym v') ∙ e in
    absurd (ground (arith, f))

module _ {H P : Type 0} (s : Station H) (p : Phy P) (view : H → P)
    (m : FollowsManual s p view) where
  wait_busy_ends :
      (fuel : ℕ) (h : H)
      → m.left h < fuel
      → (h' : H) × (wait_busy s fuel h ≡ some h') × (m.left h' ≡ 0) × (m.due h' ≡ m.due h)
  unfolding wait_busy
  wait_busy_ends zero h l = absurd (omega arith)
  wait_busy_ends (suc fuel) h l = elim (Bool-cases (bit_and (s.load mind h).0 mind_busy == 0)) [
    | inl e ↦
        rw (e, wait_busy)
          (
            (s.load mind h).1,
            refl,
            ground (arith, e, m.polls_left h, m.polls_busy h),
            m.polls_due h,
          )
    | inr e ↦
        let (h', r, z, w) =
          wait_busy_ends fuel (s.load mind h).1 (ground (arith, m.polls_left h, m.polls_busy h)) in
        rw (e, wait_busy) (h', r, z, w ∙ m.polls_due h)
  ]

  wait_valid_ends :
      (fuel : ℕ) (h : H)
      → m.left h < fuel
      → (h' : H) × (wait_valid s fuel h ≡ some h')
        × (m.left h' ≡ 0)
        × (m.due h' ≡ m.due h)
        × (m.word h' ≡ m.word h)
  unfolding wait_valid
  wait_valid_ends zero h l = absurd (omega arith)
  wait_valid_ends (suc fuel) h l =
      let h₁ = (s.load mind h).1 in
      let h₂ = (s.load mind h₁).1 in
      let w₂ = m.polls_due h₁ ∙ m.polls_due h in
      let d₂ = m.polls_word h₁ ∙ m.polls_word h in
      elim (Bool-cases (
        bit_or (bit_and (s.load mind h).0 mind_busy) (bit_and (s.load mind h₁).0 mind_not_valid)
        == 0)) [
          | inl e ↦
              let done : m.left h ≡ 0 =
                none_left (m.left h) (m.left h₁) _ _ (m.polls_busy h) (m.polls_valid h₁)
                  (m.polls_left h) e in
              rw (e, wait_valid)
                (h₂, refl, omega (arith, done, m.polls_left h, m.polls_left h₁), w₂, d₂)
          | inr e ↦
              let (h', r, z, w, d) = wait_valid_ends fuel h₂ (
                still_left (m.left h) (m.left h₁) fuel _ _ (m.polls_busy h) (m.polls_valid h₁)
                  (m.polls_left h) (m.polls_left h₁) l e) in
              rw (e, wait_valid) (h', r, z, w ∙ w₂, d ∙ d₂)
        ]

  -- While no cycle is under way and with fuel for the reads of MIND that one takes, _write_to_phy_register leaves the
  -- PHY as a completed write of the 16-bit value does, and _read_from_phy_register returns the low 16 bits of the
  -- register's value and leaves the PHY as a completed read does. Neither leaves a cycle under way.
  pub phy_accesses :
      (fuel r v : ℕ) (h : H)
      → m.left h ≡ 0
      → m.latency < fuel
      → ((h' : H) × ((phy s fuel).write r v h ≡ some h')
          × (m.left h' ≡ 0)
          × (view h' ≡ p.write_leaves r (u16 v) (view h)))
        × ((h' : H) × ((phy s fuel).read r h ≡ some (u16 (p.value r (view h)), h'))
            × (m.left h' ≡ 0)
            × (view h' ≡ p.read_leaves r (view h)))
  unfolding phy write_to_phy_register_with_addr read_from_phy_register_with_addr
  phy_accesses fuel r v h idle l =
      let read_fits : m.left (s.store mcmd 1 (s.store madr (select r) h)) < fuel =
        omega (arith, m.read_left r h) in
      let (h₁, e, z₁, w) = wait_busy_ends fuel _ (omega (arith, m.write_left r (u16 v) h, l)) in
      let (h₂, f, z₂, x, d) =
        wait_valid_ends fuel (s.store mcmd 1 (s.store madr (select r) h)) read_fits in
      (
        (h₁, e, z₁, m.complete h₁ z₁ ∙ w ∙ m.write_due r (u16 v) h idle),
        (
          (s.load mrdd (s.store mcmd 0 h₂)).1,
          rw (f, m.end_shown h₂ z₂, d, m.read_word r h idle) refl,
          m.end_left h₂ z₂,
          m.end_view h₂ z₂ ∙ m.complete h₂ z₂ ∙ x ∙ m.read_due r h idle,
        ),
      )
