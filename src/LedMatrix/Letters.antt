-- ===== src/LedMatrix/Letters.antt =====
-- What display_char draws.
use rflpc.Base.{
  ℕ, zero, suc, ◌+◌, ◌-◌, ◌*◌, ◌≤◌, ◌<◌, ◌==◌, if◌then◌else◌, leb, ltb, ◌&&◌, Bool, ◌≡◌, sym,
  bit_and, ap, ◌∙◌, inl, inr, Bool-cases, arith,
}
use rflpc.Base.Bits.{bit_at, bit_at-lt}
use rflpc.Base.Word.{shl, shr, bit_at-shr}
use rflpc.Base.Memory.{Memory, store}
use rflpc.Base.Integers.{ℤ, pos, negsuc}
use rflpc.LedMatrix.{get_bit, draw_row, draw_rows, display_char}

draw_pixel :
    (j b row i buffer color : ℕ) (m : Memory) (x y : ℕ)
    → i < 8
    → y < 8
    → (if get_bit row b == 0 then m else store m (buffer + (shl j 3 + i)) color)
        (buffer + (x * 8 + y))
      ≡ (if y == i && x == j && bit_at row b == 1 then color else m (buffer + (x * 8 + y)))
unfolding get_bit
draw_pixel j b row i buffer color m x y hi hy =
    let bit : bit_and (shr row b) 1 ≡ bit_at row b = bit_at-shr row b in
    elim (Bool-cases (bit_and (shr row b) 1 == 0)) [
      | inl e ↦ rw e (ground (arith, bit, e))
      | inr e ↦ rw e (ground (arith, bit, e, bit_at-lt row b))
    ]

draw_row_lem :
    (n j b row i buffer color : ℕ) (m : Memory) (x y : ℕ)
    → i < 8
    → y < 8
    → draw_row n j b row i buffer color m (buffer + (x * 8 + y)) ≡ (
        if y == i && leb j x && ltb x (j + n) && bit_at row (b + (x - j)) == 1
        then color
        else m (buffer + (x * 8 + y)))
unfolding draw_row
draw_row_lem zero j b row i buffer color m x y hi hy = ground arith
draw_row_lem (suc n) j b row i buffer color m x y hi hy =
    draw_row_lem n (j + 1) (b + 1) row i buffer color _ x y hi hy
    ∙ ground (
      arith,
      draw_pixel j b row i buffer color m x y hi hy,
      ap (bit_at row) {x = b + 1 + (x - (j + 1))} {y = b + (x - j)},
      ap (bit_at row) {x = b} {y = b + (x - j)},
    )

-- The dots of a letter in a column of the matrix, from the column `first` on, where the font's bit `skip` stands, up
-- to `stop`.
abbrev dot : (ℕ → ℕ) → ℕ → ℕ → ℕ → ℕ → ℕ → ℕ → Bool
dot font c first stop skip x y =
    leb first x && (ltb x stop && bit_at (font (c * 8 + y)) (skip + (x - first)) == 1)

row_dots :
    (first stop skip : ℕ) (font : ℕ → ℕ) (c i buffer color : ℕ) (m : Memory) (x y : ℕ)
    → i < 8
    → y < 8
    → draw_row (stop - first) first skip (font (c * 8 + i)) i buffer color m (buffer + (x * 8 + y))
      ≡ (if y == i && dot font c first stop skip x i then color else m (buffer + (x * 8 + y)))
row_dots first stop skip font c i buffer color m x y hi hy =
    ground
      (arith, draw_row_lem (stop - first) first skip (font (c * 8 + i)) i buffer color m x y hi hy)

one_row_more :
    (i n y color v : ℕ) (p q : Bool)
    → (y ≡ i → q ≡ p)
    → (if leb (i + 1) y && (ltb y (i + 1 + n) && p)
        then color
        else if y == i && q
        then color
        else v)
      ≡ (if leb i y && (ltb y (i + suc n) && p) then color else v)
one_row_more i n y color v p q same = ground (arith, same)

draw_rows_lem :
    (n i first stop skip : ℕ) (font : ℕ → ℕ) (c buffer color : ℕ) (m : Memory) (x y : ℕ)
    → i + n ≤ 8
    → y < 8
    → draw_rows n i first stop skip font c buffer color m (buffer + (x * 8 + y)) ≡ (
        if leb i y && (ltb y (i + n) && dot font c first stop skip x y)
        then color
        else m (buffer + (x * 8 + y)))
unfolding draw_rows
draw_rows_lem zero i first stop skip font c buffer color m x y hi hy = ground arith
draw_rows_lem (suc n) i first stop skip font c buffer color m x y hi hy =
    draw_rows_lem n (i + 1) first stop skip font c buffer color _ x y (omega arith) hy
    ∙ ap
        (λ v.
          if leb (i + 1) y && (ltb y (i + 1 + n) && dot font c first stop skip x y)
          then color
          else v)
        (row_dots first stop skip font c i buffer color m x y (omega arith) hy)
    ∙ one_row_more i n y color (m (buffer + (x * 8 + y))) (dot font c first stop skip x y)
        (dot font c first stop skip x i) (λ e. ap (dot font c first stop skip x) (sym e))

-- Whether the letter's dot is lit at the column `x` and the row `y` of the matrix.
abbrev pub lit : (ℕ → ℕ) → ℕ → ℤ → ℕ → ℕ → Bool
lit font c (pos column) x y =
    leb column x && (ltb x 8 && bit_at (font (c * 8 + y)) (x - column) == 1)
lit font c (negsuc k) x y = ltb (x + suc k) 8 && bit_at (font (c * 8 + y)) (x + suc k) == 1

-- display_char gives the colour to the bytes of the matrix where the letter, moved to its column, has a dot, and
-- leaves every other byte from the buffer on as it was; bytes behind the matrix have no dot.
pub display_char_lem :
    (font : ℕ → ℕ) (c buffer color : ℕ) (column : ℤ) (m : Memory) (x y : ℕ)
    → y < 8
    → display_char font buffer c column color m (buffer + (x * 8 + y))
      ≡ (if lit font c column x y then color else m (buffer + (x * 8 + y)))
unfolding display_char
display_char_lem font c buffer color (pos column) m x y hy =
    draw_rows_lem 8 0 column 8 0 font c buffer color m x y (omega arith) hy
    ∙ ground (arith, ap (bit_at (font (c * 8 + y))) {x = 0 + (x - column)} {y = x - column})
display_char_lem font c buffer color (negsuc k) m x y hy =
    draw_rows_lem 8 0 0 (8 - suc k) (suc k) font c buffer color m x y (omega arith) hy
    ∙ ground (arith, ap (bit_at (font (c * 8 + y))) {x = suc k + (x - 0)} {y = x + suc k})
