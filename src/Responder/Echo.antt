-- ===== src/Responder/Echo.antt =====
-- The answer to an ICMP echo request.
use rflpc.Base.{
  ℕ, zero, suc, Bool-cases, get_or, ◌+◌, ◌-◌, ◌*◌, ◌/◌, ◌%◌, ◌^◌, ◌<◌, ◌≤◌, leb, ltb, ◌&&◌, true,
  bit_and, bit_or, List, [], ◌∷◌, ◌≡◌, inl, inr, refl, ap, ◌∙◌, arith,
}
use rflpc.Base.Bits.{bit_and-mask, bit_or-add}
use rflpc.Base.Word.{shl, shr, u16}
use rflpc.Base.Memory.{Memory, store_all, store_all_inside, store_all_outside}
use rflpc.Tinylibc.Memcpy.Step.{copied, AreDisjoint}
use rflpc.Protocols.Fields.{get_two}
use rflpc.Protocols.Headers.{is_echo, icmp_demangle, icmp_mangle}
use rflpc.Responder.{icmp_reply}
use rflpc.Responder.Requests.{get_two-lt}

-- The bytes of a field that was got are put back.
put_two_back :
    (m : Memory) (p i : ℕ)
    → ((b : ℕ) → m b < 256)
    → (bit_and (shr (get_two m p i) 8) 0xff ≡ m (p + i))
      × (bit_and (get_two m p i) 0xff ≡ m (p + (i + 1)))
unfolding get_two
put_two_back m p i bytes =
    let a = m (p + i) in
    let b = m (p + (i + 1)) in
    let small : u16 (shl a 8) ≡ a * 2 ^ 8 = omega (arith, bytes (p + i)) in
    let word : bit_or (a * 2 ^ 8) b ≡ a * 2 ^ 8 + b = bit_or-add 8 a b (bytes (p + (i + 1))) in
    rw (small, word)
      (
        omega (arith, bit_and-mask 8 (shr (a * 2 ^ 8 + b) 8), bytes (p + i), bytes (p + (i + 1))),
        omega (arith, bit_and-mask 8 (a * 2 ^ 8 + b), bytes (p + i), bytes (p + (i + 1))),
      )

-- The first bytes of the reply's ICMP header, for the request's at `q`.
abbrev pub reply_header : Memory → ℕ → List ℕ
reply_header m q = 0 ∷ m (q + 1) ∷ 0 ∷ 0 ∷ m (q + 4) ∷ m (q + 5) ∷ m (q + 6) ∷ m (q + 7) ∷ []

reply_header-at : (m : Memory) (q j : ℕ) → 4 ≤ j → j < 8 → get_or (reply_header m q) j 0 ≡ m (q + j)
reply_header-at m q zero lo hi = absurd (omega arith)
reply_header-at m q (suc zero) lo hi = absurd (omega arith)
reply_header-at m q (suc (suc zero)) lo hi = absurd (omega arith)
reply_header-at m q (suc (suc (suc zero))) lo hi = absurd (omega arith)
reply_header-at m q (suc (suc (suc (suc zero)))) lo hi = refl
reply_header-at m q (suc (suc (suc (suc (suc zero))))) lo hi = refl
reply_header-at m q (suc (suc (suc (suc (suc (suc zero)))))) lo hi = refl
reply_header-at m q (suc (suc (suc (suc (suc (suc (suc zero))))))) lo hi = refl
reply_header-at m q (suc (suc (suc (suc (suc (suc (suc (suc j)))))))) lo hi = absurd (omega arith)

pub icmp_mangle-reply :
    (m M : Memory) (q p : ℕ)
    → ((b : ℕ) → m b < 256)
    → m (q + 0) ≡ 8
    → icmp_mangle (icmp_reply (icmp_demangle m q)) M p ≡ store_all M p (reply_header m q)
unfolding icmp_mangle icmp_demangle
icmp_mangle-reply m M q p bytes request =
    let is_request : is_echo (m (q + 0)) ≡ true = rw request refl in
    let i₀ = get_two m q 4 in
    let s₀ = get_two m q 6 in
    let id : (i₀ + s₀ * 2 ^ 16) % 2 ^ 16 ≡ i₀ = omega (arith, get_two-lt m q 4 bytes) in
    let number : (i₀ + s₀ * 2 ^ 16) / 2 ^ 16 ≡ s₀ = omega (arith, get_two-lt m q 4 bytes) in
    let (id_high, id_low) = put_two_back m q 4 bytes in
    let (number_high, number_low) = put_two_back m q 6 bytes in
    rw (is_request, id, number, id_high, id_low, number_high, number_low) refl

in_header : (m : Memory) (d s n k : ℕ) → k < 8 → copied m (d + 8) s n (d + k) ≡ m (d + k)
in_header m d s n k h = ground arith

in_data :
    (m : Memory) (d s l j : ℕ)
    → 8 ≤ j
    → j < l
    → copied m (d + 8) (s + 8) (l - 8) (d + j) ≡ m (s + j)
in_data m d s l j h t =
    let there : (leb (d + 8) (d + j) && ltb (d + j) (d + 8 + (l - 8))) ≡ true = ground arith in
    rw there (ap m (omega arith))

before : (m : Memory) (d s n a : ℕ) → a < d → copied m (d + 8) s n a ≡ m a
before m d s n a h = ground arith

pub record IsAnswered (m M : Memory) (q start l : ℕ) : Type 0 where
  pub type : M start ≡ 0
  pub code : M (start + 1) ≡ m (q + 1)
  pub sum_high : M (start + 2) ≡ 0
  pub sum_low : M (start + 3) ≡ 0
  pub rest : (j : ℕ) → 4 ≤ j → j < l → M (start + j) ≡ m (q + j)

-- The header and the data of the reply, copied from a request of `l` bytes.
pub answered :
    (m M₂ M₄ : Memory) (q start l : ℕ)
    → 12 ≤ l
    → AreDisjoint start q l
    → ((a : ℕ) → q ≤ a → a < q + l → M₂ a ≡ m a)
    → ((a : ℕ)
        → M₄ a ≡ copied (store_all M₂ start (reply_header m q)) (start + 8) (q + 8) (l - 8) a)
    → IsAnswered m M₄ q start l × ((a : ℕ) → a < start → M₄ a ≡ M₂ a)
answered m M₂ M₄ q start l long apart same copy =
    let M₃ = store_all M₂ start (reply_header m q) in
    let low : (k : ℕ) → k < 8 → M₄ (start + k) ≡ get_or (reply_header m q) k 0 = λ k h.
      copy (start + k)
      ∙ in_header M₃ start (q + 8) (l - 8) k h
      ∙ store_all_inside M₂ start (reply_header m q) k h in
    let high : (j : ℕ) → 8 ≤ j → j < l → M₄ (start + j) ≡ m (q + j) = λ j h t.
      copy (start + j)
      ∙ in_data M₃ start q l j h t
      ∙ store_all_outside M₂ start (reply_header m q) (q + j) (omega arith)
      ∙ same (q + j) (omega arith) (omega arith) in
    (
      record {
        type = ap M₄ (omega arith) ∙ low 0 (omega arith);
        code = low 1 (omega arith);
        sum_high = low 2 (omega arith);
        sum_low = low 3 (omega arith);
        rest = λ j h t. elim (Bool-cases (ltb j 8)) [
          | inl e ↦ low j (ground arith) ∙ reply_header-at m q j h (ground arith)
          | inr e ↦ high j (ground arith) t
        ];
      },
      λ a h.
          copy a
          ∙ before M₃ start (q + 8) (l - 8) a h
          ∙ store_all_outside M₂ start (reply_header m q) a (inl h),
    )
