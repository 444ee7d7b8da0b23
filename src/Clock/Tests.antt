-- ===== src/Clock/Tests.antt =====
-- A processor that starts from the PLL of a boot loader.
use rflpc.Base.{◌≡◌, [], ◌∷◌, true, false, inl, inr, refl}
use rflpc.Clock.{Sc, cpu_clock}
use rflpc.Clock.Sequence.{clock_init-Runs}

abbrev boot : Sc
boot = record {
  pll0con = 3;
  pll0cfg = 7;
  con = 3;
  cfg = 7;
  fed = false;
  locked = true;
  scs = 0;
  clksrcsel = 0;
  cclkcfg = 0;
  flashcfg = 0;
  interrupts = true;
  failed = false;
}

clock_init-Runs_example :
    cpu_clock
      (clock_init-Runs
        (false ∷ true ∷ [])
        (false ∷ false ∷ true ∷ [])
        boot
        (refl, refl, refl, inr (inr refl))
        (inr (inl refl))
        (inr (inr (inl refl)))).0
    ≡ 96000000
clock_init-Runs_example =
    (clock_init-Runs (false ∷ true ∷ []) (false ∷ false ∷ true ∷ []) boot
      (refl, refl, refl, inr (inr refl)) (inr (inl refl)) (inr (inr (inl refl)))).2
