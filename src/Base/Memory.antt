-- ===== src/Base/Memory.antt =====
-- A byte memory as a function of the address, and runs of bytes in it.
use Prim.Native.Nat.{ℕ, zero, suc, ◌+◌, ◌≤◌, ◌<◌}
use mathlib.Core.Path.{◌≡◌, refl, ◌∙◌, ap, ap₂}
use mathlib.Core.Logic.{◌⊎◌, inl}
use mathlib.Core.List.{List, [], ◌∷◌, ◌++◌}
use native.Mathlib.Omega.{arith}
use rflpc.Base.Tests.{◌==◌, if◌then◌else◌}
use rflpc.Base.Lists.{length, get_or, length-append, get_or-append, get_or-append_left}

abbrev pub Memory : Type 0
Memory = ℕ → ℕ

-- `*p = v`
abbrev pub store : Memory → ℕ → ℕ → Memory
store m p v a = if a == p then v else m a

-- The bytes of a list, stored from `p` on.
abbrev pub store_all : Memory → ℕ → List ℕ → Memory
store_all m p [] = m
store_all m p (b ∷ bs) = store_all (store m p b) (p + 1) bs

-- The `n` bytes from `p` on.
abbrev pub load_all : Memory → ℕ → ℕ → List ℕ
load_all m p zero = []
load_all m p (suc n) = m p ∷ load_all m (p + 1) n

-- A run that is stored is found, and nothing outside it changes.
pub store_all_outside :
    (m : Memory) (p : ℕ) (bs : List ℕ) (a : ℕ)
    → (a < p) ⊎ (p + length bs ≤ a)
    → store_all m p bs a ≡ m a
store_all_outside m p [] a h = refl
store_all_outside m p (b ∷ bs) a h = ground (arith, store_all_outside (store m p b) (p + 1) bs a)

pub store_all_inside :
    (m : Memory) (p : ℕ) (bs : List ℕ) (j : ℕ)
    → j < length bs
    → store_all m p bs (p + j) ≡ get_or bs j 0
store_all_inside m p [] j h = absurd (omega arith)
store_all_inside m p (b ∷ bs) zero h =
    ground (arith, store_all_outside (store m p b) (p + 1) bs (p + 0))
store_all_inside m p (b ∷ bs) (suc j) h =
    ap (λ a. store_all (store m p b) (p + 1) bs a) (omega arith)
    ∙ store_all_inside (store m p b) (p + 1) bs j (omega arith)

-- A byte depends on what stood there before only.
pub store_all-same :
    (m m' : Memory) (p : ℕ) (bs : List ℕ) (a : ℕ)
    → m a ≡ m' a
    → store_all m p bs a ≡ store_all m' p bs a
store_all-same m m' p [] a h = h
store_all-same m m' p (b ∷ bs) a h =
    store_all-same (store m p b) (store m' p b) (p + 1) bs a (ap (λ x. if a == p then b else x) h)

-- Two bytes that are stored over those in the middle of a run.
pub store_all-over :
    (m : Memory) (p q : ℕ) (xs zs : List ℕ) (b₀ b₁ c₀ c₁ a : ℕ)
    → q ≡ p + length xs
    → store_all (store_all m p (xs ++ b₀ ∷ b₁ ∷ zs)) q (c₀ ∷ c₁ ∷ []) a
      ≡ store_all m p (xs ++ c₀ ∷ c₁ ∷ zs) a
store_all-over m p q [] zs b₀ b₁ c₀ c₁ a e =
    let old = store (store m p b₀) (p + 1) b₁ in
    let new = store (store m p c₀) (p + 1) c₁ in
    ground (
      arith,
      λ (h : a < p + 1 + 1). store_all_outside new (p + 1 + 1) zs a (inl h),
      λ (h : old a ≡ new a). store_all-same old new (p + 1 + 1) zs a h,
    )
store_all-over m p q (x ∷ xs) zs b₀ b₁ c₀ c₁ a e =
    store_all-over (store m p x) (p + 1) q xs zs b₀ b₁ c₀ c₁ a (omega arith)

pub load_all-eq :
    (m : Memory) (q : ℕ) (bs : List ℕ)
    → ((j : ℕ) → j < length bs → m (q + j) ≡ get_or bs j 0)
    → load_all m q (length bs) ≡ bs
load_all-eq m q [] h = refl
load_all-eq m q (b ∷ bs) h =
    ap₂ ◌∷◌ (ap m (omega arith) ∙ h 0 (omega arith))
      (load_all-eq m (q + 1) bs λ j l. ap m (omega arith) ∙ h (suc j) (omega arith))

-- A part of a run that was stored is loaded.
pub load_all-part :
    (m : Memory) (p q : ℕ) (xs part zs : List ℕ)
    → q ≡ p + length xs
    → load_all (store_all m p (xs ++ (part ++ zs))) q (length part) ≡ part
load_all-part m p q xs part zs e = load_all-eq (store_all m p (xs ++ (part ++ zs))) q part λ j l.
    let place : q + j ≡ p + (length xs + j) = omega arith in
    let inner = length-append part zs in
    let outer = length-append xs (part ++ zs) in
    let inside : length xs + j < length (xs ++ (part ++ zs)) = omega arith in
    ap (store_all m p (xs ++ (part ++ zs))) place
    ∙ store_all_inside m p (xs ++ (part ++ zs)) (length xs + j) inside
    ∙ get_or-append xs (part ++ zs) j 0
    ∙ get_or-append_left part zs j 0 l
