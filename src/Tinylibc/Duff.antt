-- ===== src/Tinylibc/Duff.antt =====
-- The unrolled loop of memcpy.c and memset.c (Duff's device): the switch enters the body of a
-- do-while loop that makes eight steps a round.
use rflpc.Base.{
  ℕ, zero, suc, ◌+◌, ◌-◌, ◌*◌, ◌/◌, ◌%◌, ◌<◌, ◌==◌, if◌then◌else◌, ◌≡◌, refl, ap, sym, ◌∙◌, arith,
}

module _ {ℓ} {S : Type ℓ} (step : S → S) where
  abbrev pub times : ℕ → S → S
  times zero s = s
  times (suc k) s = times k (step s)

  -- `do { …eight steps… } while (--count > 0);` once the first round is over.
  unfoldable pub more_rounds : ℕ → S → S
  more_rounds zero s = s
  more_rounds (suc k) s = more_rounds k (times 8 s)

  -- `switch (n % 8)` jumps into the first round, `count` is the number of rounds.
  unfoldable pub duff : ℕ → ℕ → S → S
  duff n count s = more_rounds (count - 1) (times (if n % 8 == 0 then 8 else n % 8) s)

  times-add : (j k : ℕ) (s : S) → times (j + k) s ≡ times k (times j s)
  times-add zero k s = let e : 0 + k ≡ k = omega arith in ap (λ (n : ℕ). times n s) e
  times-add (suc j) k s =
      let e : suc j + k ≡ suc (j + k) = omega arith in
      ap (λ (n : ℕ). times n s) e ∙ times-add j k (step s)

  more_rounds-eq-times : (k : ℕ) (s : S) → more_rounds k s ≡ times (8 * k) s
  unfolding more_rounds
  more_rounds-eq-times zero s = refl
  more_rounds-eq-times (suc k) s =
      let e : 8 * suc k ≡ 8 + 8 * k = omega arith in
      more_rounds-eq-times k (times 8 s)
      ∙ sym (times-add 8 (8 * k) s)
      ∙ sym (ap (λ (n : ℕ). times n s) e)

  -- The unrolled loop makes `n` steps, for every positive `n`.
  pub duff-eq-times :
      (n count : ℕ) (s : S) → 0 < n → count ≡ (n + 7) / 8 → duff n count s ≡ times n s
  unfolding duff
  duff-eq-times n count s pos e =
      let entry : ℕ = if n % 8 == 0 then 8 else n % 8 in
      let total : entry + 8 * (count - 1) ≡ n = ground arith in
      more_rounds-eq-times (count - 1) (times entry s)
      ∙ sym (times-add entry (8 * (count - 1)) s)
      ∙ ap (λ (k : ℕ). times k s) total
