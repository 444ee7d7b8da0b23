-- ===== src/LedMatrix/Scroll.antt =====
-- The text that scrolls over the matrix.
use rflpc.Base.{
  ℕ, zero, suc, ◌+◌, ◌-◌, ◌*◌, ◌/◌, ◌%◌, ◌<◌, ◌==◌, if◌then◌else◌, leb, ltb, ◌&&◌, not, List, [],
  ◌∷◌, ◌++◌, some, length, get_elem?, get_or, Bool, true, false, ◌≡◌, refl, ap, ◌∙◌, inl, inr,
  Bool-cases, arith,
}
use rflpc.Base.Bits.{bit_at}
use rflpc.Base.Memory.{Memory}
use rflpc.Base.Integers.{pos}
use rflpc.LedMatrix.{column_minus, display_letter, display_char, display_text, second_letter}
use rflpc.LedMatrix.Letters.{lit, display_char_lem}

letter_at :
    (text : List ℕ) (i : ℕ)
    → i < length text
    → get_elem? (text ++ (0 ∷ [])) i ≡ some (get_or text i 0)
letter_at [] i h = absurd (omega arith)
letter_at (x ∷ text) zero h = refl
letter_at (x ∷ text) (suc i) h = letter_at text i (omega arith)

-- The letter that stands at a column of the whole text, with the first one behind the last.
abbrev pub letter_of : List ℕ → ℕ → ℕ
letter_of text i = get_or text (if i == length text then 0 else i) 0

if_at : (b : Bool) (f g : Memory) (a : ℕ) → (if b then f else g) a ≡ (if b then f a else g a)
if_at true f g a = refl
if_at false f g a = refl

first_part :
    (font : ℕ → ℕ) (text : List ℕ) (letter inside buffer color : ℕ) (m : Memory)
    → letter < length text
    → display_letter font buffer text letter (column_minus inside) color m
      ≡ some (display_char font buffer (letter_of text letter) (column_minus inside) color m)
unfolding display_letter
first_part font text letter inside buffer color m h =
    let here : (letter == length text) ≡ false = ground arith in
    rw (letter_at text letter h, here) refl

second_part :
    (font : ℕ → ℕ) (text : List ℕ) (letter inside buffer color : ℕ) (m : Memory)
    → letter < length text
    → second_letter
        (not (inside == 0))
        font
        buffer
        text
        (if leb (length text) (letter + 1) then 0 else letter + 1)
        (8 - inside)
        color
        m
      ≡ some (
          if inside == 0
          then m
          else display_char font buffer (letter_of text (letter + 1)) (pos (8 - inside)) color m)
unfolding second_letter display_letter
second_part font text letter inside buffer color m h =
    let same : (letter + 1 == length text) ≡ leb (length text) (letter + 1) = ground arith in
    let i = if leb (length text) (letter + 1) then 0 else letter + 1 in
    let found = letter_at text i (ground arith) in
    elim (Bool-cases (inside == 0)) [ inl e ↦ rw e refl | inr e ↦ rw (e, found, same) refl ]

lit_minus :
    (font : ℕ → ℕ) (c k x y : ℕ)
    → x < 8
    → lit font c (column_minus k) x y ≡ (ltb (x + k) 8 && bit_at (font (c * 8 + y)) (x + k) == 1)
unfolding column_minus
lit_minus font c zero x y h = ground (arith, ap (bit_at (font (c * 8 + y))) {x = x - 0} {y = x + 0})
lit_minus font c (suc k) x y h = refl

-- A dot of the whole text, from the column `i` of it.
abbrev pub text_dot : (ℕ → ℕ) → List ℕ → ℕ → ℕ → Bool
text_dot font text i y = bit_at (font (letter_of text (i / 8) * 8 + y)) (i % 8) == 1

two_letters :
    (font : ℕ → ℕ) (text : List ℕ) (position x y color v w : ℕ)
    → x < 8
    → w ≡ (
        if lit font (letter_of text (position / 8)) (column_minus (position % 8)) x y
        then color
        else v)
    → (if position % 8 == 0
        then w
        else (if lit font (letter_of text (position / 8 + 1)) (pos (8 - position % 8)) x y
            then color
            else w))
      ≡ (if text_dot font text (position + x) y then color else v)
two_letters font text position x y color v w hx first =
    let near = lit_minus font (letter_of text (position / 8)) (position % 8) x y hx in
    elim (Bool-cases (ltb (x + position % 8) 8)) [
      | inl e ↦
          let d : (position + x) / 8 ≡ position / 8 = ground (arith, e) in
          let r : (position + x) % 8 ≡ x + position % 8 = ground (arith, e) in
          rw (d, r) (ground (arith, e, first, near))
      | inr e ↦
          let d : (position + x) / 8 ≡ position / 8 + 1 = ground (arith, e) in
          let r : (position + x) % 8 ≡ x - (8 - position % 8) = ground (arith, e) in
          rw (d, r) (ground (arith, e, first, near))
    ]

-- At a position from 0 on that is inside the text, display_text draws the eight columns of the whole text from that
-- position on, with the first letter again behind the last one; the bytes of the other dots stay as they were.
pub display_text-Scrolls :
    (font : ℕ → ℕ) (text : List ℕ) (position buffer color : ℕ) (m : Memory)
    → position / 8 < length text
    → (m' : Memory) × (display_text font buffer text (pos position) color m ≡ some m')
      × ((x y : ℕ)
          → x < 8
          → y < 8
          → m' (buffer + (x * 8 + y))
            ≡ (if text_dot font text (position + x) y then color else m (buffer + (x * 8 + y))))
unfolding display_text
display_text-Scrolls font text position buffer color m h =
    let inside = position % 8 in
    let letter = position / 8 in
    let m₁ = display_char font buffer (letter_of text letter) (column_minus inside) color m in
    let m₂ = display_char font buffer (letter_of text (letter + 1)) (pos (8 - inside)) color m₁ in
    (
      if inside == 0 then m₁ else m₂,
      rw (first_part font text letter inside buffer color m h)
          (second_part font text letter inside buffer color m₁ h),
      λ x y hx hy.
          (let place = buffer + (x * 8 + y) in
            if_at (inside == 0) m₁ m₂ place
            ∙ ap (λ (v : ℕ). if inside == 0 then m₁ place else v)
                (display_char_lem font (letter_of text (letter + 1)) buffer color (pos (8 - inside))
                  m₁ x y hy)
            ∙ two_letters font text position x y color (m place) (m₁ place) hx (
                display_char_lem font (letter_of text letter) buffer color (column_minus inside) m x
                  y hy)),
    )
