-- ===== src/Dhcp/Options.antt =====
-- The options of a message: what dhcp_get_option_array finds in them.
use mathlib.Core.Option.{none-ne-some, some-injective}
use rflpc.Base.{
  ℕ, zero, suc, true, false, ◌+◌, ◌-◌, ◌*◌, ◌<◌, ◌≤◌, ◌==◌, if◌then◌else◌, leb, ltb, not, ◌&&◌,
  Bool, List, [], ◌∷◌, length, min, Option, some, none, ◌≡◌, ◌≢◌, ◌⊎◌, refl, sym, ap, ap₂, ◌∙◌,
  Bool-cases, inl, inr, arith,
}
use rflpc.Base.Memory.{Memory, load_all}
use rflpc.Tinylibc.Memcpy.{memcpy, is_word_aligned}
use rflpc.Tinylibc.Memcpy.Step.{copied}
use rflpc.Dhcp.{option_end, get_option_from, dhcp_get_option_array}

-- An option by its code and its value.
abbrev pub Opt : Type 0
Opt = ℕ × List ℕ

-- From `p` on stand these options one after the other, and then the end mark, which is at `options + 60` at most.
abbrev pub AreLaidOut : Memory → ℕ → ℕ → List Opt → Type 0
AreLaidOut m options p [] = (m p ≡ option_end) × (p ≤ options + 60)
AreLaidOut m options p ((code, value) ∷ opts) =
    (m p ≡ code)
    × (code ≢ option_end)
    × (m (p + 1) ≡ length value)
    × (load_all m (p + 2) (length value) ≡ value)
    × (p ≤ options + 60)
    × AreLaidOut m options (p + length value + 2) opts

-- The value of the first option with the code.
abbrev pub lookup : ℕ → List Opt → Option (List ℕ)
lookup code [] = none
lookup code ((c, value) ∷ opts) = if c == code then some value else lookup code opts

-- The `n` bytes of the value that are copied for a size.
abbrev pub cut : ℕ → List ℕ → ℕ
cut max_size value = min max_size (length value)

shorter : (a b : ℕ) → (if ltb a b then a else b) ≡ min a b
shorter a b = ground arith

-- The bytes from `d` on after a copy are those that stood from `s` on.
load_all-copied :
    (m M : Memory) (d s n k j : ℕ)
    → ((a : ℕ) → M a ≡ copied m d s n a)
    → j + k ≤ n
    → load_all M (d + j) k ≡ load_all m (s + j) k
load_all-copied m M d s n zero j c h = refl
load_all-copied m M d s n (suc k) j c h =
    let at : s + (d + j - d) ≡ s + j = omega arith in
    let first : M (d + j) ≡ m (s + j) = c (d + j) ∙ ground (arith, ap m at) in
    let rest =
      ap (λ x. load_all M x k) {x = d + j + 1} {y = d + (j + 1)} (omega arith)
      ∙ load_all-copied m M d s n k (j + 1) c (omega arith)
      ∙ ap (λ x. load_all m x k) {x = s + (j + 1)} {y = s + j + 1} (omega arith) in
    ap₂ (λ x xs. x ∷ xs) first rest

pub load_all-start :
    (m M : Memory) (d s n : ℕ)
    → ((a : ℕ) → M a ≡ copied m d s n a)
    → load_all M d n ≡ load_all m s n
load_all-start m M d s n c =
    ap (λ x. load_all M x n) {x = d} {y = d + 0} (omega arith)
    ∙ load_all-copied m M d s n n 0 c (omega arith)
    ∙ ap (λ x. load_all m x n) {x = s + 0} {y = s} (omega arith)

pub either_long :
    (d s n : ℕ)
    → (4 ≤ n) ⊎ (is_word_aligned d ≡ false)
    → (4 ≤ n) ⊎ ((is_word_aligned d && is_word_aligned s) ≡ false)
either_long d s n (inl h) = inl h
either_long d s n (inr h) = inr (rw h refl)

module _ (m : Memory) (options code array max_size : ℕ) where
  -- One round of the loop, by its two tests.
  round :
      (fuel p : ℕ) (go here : Bool)
      → (leb p (options + 60) && not (m p == option_end)) ≡ go
      → (m p == code) ≡ here
      → get_option_from (suc fuel) m options code array max_size p ≡ (
          if go
          then (if here
              then (let len = if ltb max_size (m (p + 1)) then max_size else m (p + 1) in
                  some (code, memcpy array (p + 2) len m))
              else get_option_from fuel m options code array max_size (p + m (p + 1) + 2))
          else some (option_end, m))
  unfolding get_option_from
  round fuel p false here g h = rw (g, get_option_from) refl
  round fuel p true true g h = rw (g, h, get_option_from) refl
  round fuel p true false g h = rw (g, h, get_option_from) refl

  -- Where the value of an option stands that is found, and what the loop does then.
  pub record FoundAt (fuel p : ℕ) (value : List ℕ) : Type 0 where
    pub place : ℕ
    pub low : place ≤ options + 60
    pub after : options ≤ p → options ≤ place
    pub bytes : load_all m (place + 2) (length value) ≡ value
    pub returns :
        get_option_from fuel m options code array max_size p
        ≡ some (code, memcpy array (place + 2) (cut max_size value) m)

  pub get_option_from-finds :
      (fuel p : ℕ) (opts : List Opt) (value : List ℕ)
      → AreLaidOut m options p opts
      → length opts < fuel
      → lookup code opts ≡ some value
      → FoundAt fuel p value
  get_option_from-finds zero p opts value h l e = absurd (omega arith)
  get_option_from-finds (suc fuel) p [] value (end, low) l e = absurd (none-ne-some value e)
  get_option_from-finds (suc fuel) p ((c, v) ∷ opts) value (is_code, no_end, len, bytes, low, rest)
        l e =
      let go : (leb p (options + 60) && not (m p == option_end)) ≡ true = ground arith in
      let same : (m p == code) ≡ (c == code) = rw is_code refl in
      elim (Bool-cases (c == code)) [
        | inl t ↦
            let own : v ≡ value =
              some-injective v value
                (ap (λ b. if b then some v else lookup code opts) (sym t) ∙ e) in
            let amount : (if ltb max_size (m (p + 1)) then max_size else m (p + 1))
                ≡ cut max_size v =
              shorter max_size (m (p + 1)) ∙ ap (min max_size) len in
            rw (← own) (record {
              place = p;
              low = low;
              after = λ h. h;
              bytes = bytes;
              returns =
                  round fuel p true true go (same ∙ t)
                  ∙ ap (λ n. some (code, memcpy array (p + 2) n m)) amount;
            })
        | inr f ↦
            let r =
              get_option_from-finds fuel (p + length v + 2) opts value rest (omega arith)
                (ap (λ b. if b then some v else lookup code opts) (sym f) ∙ e) in
            record {
              place = r.place;
              low = r.low;
              after = λ h. r.after (omega arith);
              bytes = r.bytes;
              returns =
                  round fuel p true false go (same ∙ f)
                  ∙ ap (λ k. get_option_from fuel m options code array max_size (p + k + 2)) len
                  ∙ r.returns;
            }
      ]

get_option_from-returns :
    (k : ℕ) (m : Memory) (options code array max_size p : ℕ)
    → options + 60 < p + 2 * k
    → (r : ℕ × Memory) × (get_option_from (suc k) m options code array max_size p ≡ some r)
get_option_from-returns zero m options code array max_size p l =
    (_, round m options code array max_size zero p false (m p == code) (ground arith) refl)
get_option_from-returns (suc k) m options code array max_size p l =
    let (r, e) =
      get_option_from-returns k m options code array max_size (p + m (p + 1) + 2) (omega arith) in
    elim (Bool-cases (leb p (options + 60) && not (m p == option_end))) [
      | inl go ↦ elim (Bool-cases (m p == code)) [
        | inl t ↦ (_, round m options code array max_size (suc k) p true true go t)
        | inr t ↦ (r, round m options code array max_size (suc k) p true false go t ∙ e)
      ]
      | inr g ↦ (_, round m options code array max_size (suc k) p false (m p == code) g refl)
    ]

-- Whatever stands in memory, dhcp_get_option_array returns.
pub dhcp_get_option_array-returns :
    (m : Memory) (options code array max_size : ℕ)
    → (r : ℕ × Memory) × (dhcp_get_option_array m options code array max_size ≡ some r)
unfolding dhcp_get_option_array
dhcp_get_option_array-returns m options code array max_size =
    get_option_from-returns 31 m options code array max_size options (omega arith)
