-- ===== src/Clock/Feed.antt =====
-- The feed sequence, and the PLL that is switched off.
use rflpc.Base.{ℕ, ◌+◌, ◌==◌, leb, true, false, ◌&&◌, ◌≡◌, refl, ap, ◌∙◌, ◌⊎◌, inl, inr, arith}
use native.Mathlib.Nat.{div-le_self}
use rflpc.Base.Bits.{bit_at}
use rflpc.Base.Word.{set_bit, clr_bit}
use rflpc.Clock.{Sc, cpu_clock, watch, take_effect, write_feed, feed, pll_enabled, pll_off}

not_connected-slow : (s : Sc) → bit_at s.con 1 ≡ 0 → leb (cpu_clock s) 100000000 ≡ true
unfolding cpu_clock
not_connected-slow s h =
    rw h (ground (arith, div-le_self 12000000 (s.cclkcfg + 1), div-le_self 4000000 (s.cclkcfg + 1)))

pub watch-keeps : (s : Sc) → bit_at s.con 1 ≡ 0 → (watch s).failed ≡ s.failed
unfolding watch
watch-keeps s h = rw (not_connected-slow s h, h) (ground arith)

-- The state that a feed sequence leaves, before it is watched.
abbrev pub fed_state : Sc → Sc
fed_state s = record s {
  con = s.pll0con;
  cfg = s.pll0cfg;
  fed = false;
  locked = s.locked && s.cfg == s.pll0cfg && bit_at s.con 0 == bit_at s.pll0con 0;
}

pub feed_lem : (s : Sc) → feed s ≡ watch (fed_state s)
unfolding feed write_feed take_effect
feed_lem s = refl

pub feed-keeps : (s : Sc) → bit_at s.pll0con 1 ≡ 0 → (feed s).failed ≡ s.failed
feed-keeps s h = ap (λ (t : Sc). t.failed) (feed_lem s) ∙ watch-keeps (fed_state s) h

-- The clock before the set-up: the PLL is off, or enabled only, or the processor's clock.
abbrev pub IsBooted : Sc → Type 0
IsBooted s =
    (s.failed ≡ false)
    × (s.pll0con ≡ s.con)
    × (s.pll0cfg ≡ s.cfg)
    × ((s.con ≡ 0) ⊎ ((s.con ≡ 1) ⊎ (s.con ≡ 3)))

-- The PLL is off.
pub record Off (s : Sc) : Type 0 where
  pub con : s.con ≡ 0
  pub written : s.pll0con ≡ 0
  pub cfg : s.cfg ≡ s.pll0cfg
  pub failed : s.failed ≡ false

cleared : (v : ℕ) → (v ≡ 0) ⊎ (v ≡ 1) → clr_bit v 0 ≡ 0
unfolding clr_bit
cleared v (inl e) = rw e refl
cleared v (inr e) = rw e refl

-- An enable bit that is cleared.
pub three : set_bit 1 1 ≡ 3
unfolding set_bit
three = refl

one_kept : clr_bit 1 1 ≡ 1
unfolding clr_bit
one_kept = refl

three_cut : clr_bit 3 1 ≡ 1
unfolding clr_bit
three_cut = refl

disabled :
    (s : Sc)
    → (s.pll0con ≡ 0) ⊎ (s.pll0con ≡ 1)
    → s.failed ≡ false
    → Off (feed (record s { pll0con = clr_bit s.pll0con 0 }))
unfolding feed write_feed take_effect watch
disabled s small good =
    let none_left : clr_bit s.pll0con 0 ≡ 0 = cleared s.pll0con small in
    record {
      con = none_left;
      written = none_left;
      cfg = refl;
      failed =
          feed-keeps (record s { pll0con = clr_bit s.pll0con 0 }) (ap (λ c. bit_at c 1) none_left)
          ∙ good;
    }

disconnected-Off :
    (s : Sc) (v : ℕ)
    → s.pll0con ≡ v
    → clr_bit v 1 ≡ 1
    → s.failed ≡ false
    → let s₁ = feed (record s { pll0con = clr_bit s.pll0con 1 }) in
      Off (feed (record s₁ { pll0con = clr_bit s₁.pll0con 0 }))
unfolding feed write_feed take_effect watch
disconnected-Off s v wrote one good =
    let s₁ = feed (record s { pll0con = clr_bit s.pll0con 1 }) in
    let left : clr_bit s.pll0con 1 ≡ 1 = ap (λ c. clr_bit c 1) wrote ∙ one in
    disabled s₁ (inr left)
      (feed-keeps (record s { pll0con = clr_bit s.pll0con 1 }) (ap (λ c. bit_at c 1) left) ∙ good)

pub enabled_bit : (s : Sc) (v : ℕ) → s.con ≡ v → pll_enabled s ≡ (bit_at v 0 == 1)
unfolding pll_enabled
enabled_bit s v e = ap (λ c. bit_at c 0 == 1) e

pub pll_off_lem : (s : Sc) → IsBooted s → Off (pll_off s)
unfolding pll_off
pll_off_lem s (good, wrote, wrote_cfg, inl e) =
    rw (enabled_bit s 0 e) (disabled s (inl (wrote ∙ e)) good)
pll_off_lem s (good, wrote, wrote_cfg, inr (inl e)) =
    rw (enabled_bit s 1 e) (disconnected-Off s 1 (wrote ∙ e) one_kept good)
pll_off_lem s (good, wrote, wrote_cfg, inr (inr e)) =
    rw (enabled_bit s 3 e) (disconnected-Off s 3 (wrote ∙ e) three_cut good)
