-- ===== src/LedMatrix.antt =====
-- samples/spi-leds: scroller.c, which draws text into the 64 bytes of an eight by eight matrix, one column after the
-- other, and the function of main.c that sends them. The font's table is an argument; a column of the matrix may be
-- negative.
pub mod Display
pub mod Letters
pub mod Scroll
mod Tests
use rflpc.Base.{
  ℕ, zero, suc, ◌+◌, ◌-◌, ◌*◌, ◌/◌, ◌%◌, ◌^◌, ◌==◌, if◌then◌else◌, leb, List, [], ◌∷◌, ◌++◌, Option,
  none, some, ◌>>=◌, Bool, true, false, not, ◌&&◌, bit_and, length, get_elem?,
}
use rflpc.Base.Word.{shl, shr}
use rflpc.Base.Integers.{ℤ, pos, negsuc}
use rflpc.Base.Memory.{Memory, store}
use rflpc.Spi.{Ssp, Event, spi_write, pass, status, tx_fifo_empty}

-- `GET_BIT`
unfoldable pub get_bit : ℕ → ℕ → ℕ
get_bit c b = bit_and (shr c b) 1

-- The inner loop of `display_char`: `n` columns from `j` on, of which the first shows the bit `b` of the row.
unfoldable pub draw_row : ℕ → ℕ → ℕ → ℕ → ℕ → ℕ → ℕ → Memory → Memory
unfolding get_bit
draw_row zero j b row i buffer color m = m
draw_row (suc n) j b row i buffer color m =
    draw_row n (j + 1) (b + 1) row i buffer color
      (if get_bit row b == 0 then m else store m (buffer + (shl j 3 + i)) color)

-- The outer loop: `n` rows from `i` on. The columns are those from `first` to `stop`, and `skip` is the bit of the
-- first one.
unfoldable pub draw_rows : ℕ → ℕ → ℕ → ℕ → ℕ → (ℕ → ℕ) → ℕ → ℕ → ℕ → Memory → Memory
unfolding draw_row
draw_rows zero i first stop skip font c buffer color m = m
draw_rows (suc n) i first stop skip font c buffer color m =
    draw_rows n (i + 1) first stop skip font c buffer color
      (draw_row (stop - first) first skip (font (shl c 3 + i)) i buffer color m)

-- `display_char`
unfoldable pub display_char : (ℕ → ℕ) → ℕ → ℕ → ℤ → ℕ → Memory → Memory
unfolding draw_rows
display_char font buffer c (pos led_column) color m =
    draw_rows 8 0 led_column 8 0 font c buffer color m
display_char font buffer c (negsuc k) color m =
    draw_rows 8 0 0 (8 - suc k) (suc k) font c buffer color m

-- A letter of the text, or the byte 0 behind it; nothing is known of what follows.
unfoldable pub display_letter : (ℕ → ℕ) → ℕ → List ℕ → ℕ → ℤ → ℕ → Memory → Option Memory
unfolding display_char
display_letter font buffer text letter column color m = do
  c ← get_elem? (text ++ (0 ∷ [])) letter
  some (display_char font buffer c column color m)

-- The letter's column `-position_in_letter`.
unfoldable pub column_minus : ℕ → ℤ
column_minus zero = pos zero
column_minus (suc k) = negsuc k

-- `display_text`, from position 0 on and below it, where division and remainder go to 0.
unfoldable pub second_letter : Bool → (ℕ → ℕ) → ℕ → List ℕ → ℕ → ℕ → ℕ → Memory → Option Memory
unfolding display_letter
second_letter drawn font buffer text letter column color m =
    if drawn then display_letter font buffer text letter (pos column) color m else some m

unfoldable pub display_text : (ℕ → ℕ) → ℕ → List ℕ → ℤ → ℕ → Memory → Option Memory
unfolding display_letter column_minus second_letter
display_text font buffer text (pos position) color m =
    let letter₁ = position / 8 in
    let letter₂ = if leb (length text) (letter₁ + 1) then 0 else letter₁ + 1 in
    let inside = position % 8 in
    display_letter font buffer text letter₁ (column_minus inside) color m
    >>= second_letter (not (inside == 0)) font buffer text letter₂ (8 - inside) color
display_text font buffer text (negsuc k) color m =
    let letters_back = suc k / 8 in
    let inside = suc k % 8 in
    let letter₂ = if letters_back == 0 then (if leb (length text) 1 then 0 else 1) else 0 in
    (if letters_back == 0 then display_letter font buffer text 0 (pos inside) color m else some m)
    >>= second_letter (leb letters_back 1 && not (inside == 0)) font buffer text letter₂
        (8 + inside) color

-- `led_matrix_display_buffer`: the loop over the bytes, with `n` left, and the wait for the last frame.
unfoldable pub write_bytes : ℕ → ℕ → Memory → List Event → Ssp → Option (Ssp × List Event)
write_bytes zero p m es s = some (s, es)
write_bytes (suc n) p m es s = do (s', es') ← spi_write (m p) es s; write_bytes n (p + 1) m es' s'

unfoldable pub wait_sent : List Event → Ssp → Option (Ssp × List Event)
wait_sent [] s = none
wait_sent (e ∷ es) s =
    let s' = pass e s in
    elim (tx_fifo_empty (status s')) [ true ↦ some (s', es) | false ↦ wait_sent es s' ]

unfoldable pub led_matrix_display_buffer : ℕ → Memory → List Event → Ssp → Option (Ssp × List Event)
unfolding write_bytes wait_sent
led_matrix_display_buffer buffer m es s = do
  (s', es') ← write_bytes 64 buffer m es s
  wait_sent es' s'
