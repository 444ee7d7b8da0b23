-- ===== src/LedMatrix/Tests.antt =====
-- A font whose letters are bars, and a text of two letters.
use rflpc.Base.{ℕ, ◌+◌, ◌*◌, ◌≡◌, List, [], ◌∷◌, ◌++◌, map, replicate, true, false, arith}
use rflpc.Base.Word.{u16}
use rflpc.Base.Memory.{load_all}
use rflpc.Spi.{Ssp, Event}
use rflpc.LedMatrix.Display.{display_buffer-Sends}
use rflpc.LedMatrix.Scroll.{display_text-Scrolls}

abbrev bars : ℕ → ℕ
bars a = 0x81

abbrev busy_port : Ssp
busy_port = record {
  cr0 = 7;
  cr1 = 2;
  cpsr = 4;
  imsc = 0;
  tx = 5 ∷ 6 ∷ [];
  rx = [];
  sent = 4 ∷ [];
  shifting = true;
}

abbrev steps : List Event
steps = (0, false, []) ∷ replicate 80 (1, false, [])

display_buffer-Sends_example :
    (display_buffer-Sends 100 (λ a. 3) steps busy_port (omega arith) (omega arith)).0.0.sent
    ≡ (4 ∷ []) ++ (5 ∷ 6 ∷ []) ++ map u16 (load_all (λ a. 3) 100 64)
display_buffer-Sends_example =
    (display_buffer-Sends 100 (λ a. 3) steps busy_port (omega arith) (omega arith)).2

-- The last column of the first letter stands at column 4 when the text has moved by 3.
display_text-Scrolls_example :
    (display_text-Scrolls bars (65 ∷ 66 ∷ []) 3 100 7 (λ a. 0) (omega arith)).0 (100 + (4 * 8 + 2))
    ≡ 7
display_text-Scrolls_example =
    (display_text-Scrolls bars (65 ∷ 66 ∷ []) 3 100 7 (λ a. 0) (omega arith)).2 4 2 (omega arith)
      (omega arith)
