-- ===== src/Iap/Manual.antt =====
-- What the user manual says of the ROM function, as far as iap.c relies on it.
use rflpc.Base.{ℕ, ◌+◌, ◌-◌, ◌≤◌, ◌<◌, ◌≡◌, ◌⊎◌, [], ◌∷◌, get_or}
use rflpc.Iap.{Machine, Rom, get_address_from_sector}

-- The ROM uses 32 bytes of RAM from `scratch` on for itself.
abbrev pub IsFree : ℕ → ℕ → Type 0
IsFree scratch a = (a < scratch) ⊎ (scratch + 32 ≤ a)

-- Command 50 prepares and changes no byte; command 52 makes the bytes of the sectors 0xFF and changes
-- no others; command 51 copies to a blank range and changes no other byte.
pub record FollowsManual {Chip : Type 0} (iap : Rom Chip) (scratch : ℕ) : Type 0 where
  pub prepare_keeps :
      (first last : ℕ) (m : Machine Chip) (a : ℕ)
      → IsFree scratch a
      → (iap (50 ∷ first ∷ last ∷ []) m).1.mem a ≡ m.mem a
  pub erase_blanks :
      (first last khz : ℕ) (m : Machine Chip) (a : ℕ)
      → get_or (iap (52 ∷ first ∷ last ∷ khz ∷ []) m).0 0 0 ≡ 0
      → get_address_from_sector first ≤ a
      → a < get_address_from_sector (last + 1)
      → (iap (52 ∷ first ∷ last ∷ khz ∷ []) m).1.mem a ≡ 0xff
  pub erase_keeps :
      (first last khz : ℕ) (m : Machine Chip) (a : ℕ)
      → IsFree scratch a
      → (a < get_address_from_sector first) ⊎ (get_address_from_sector (last + 1) ≤ a)
      → (iap (52 ∷ first ∷ last ∷ khz ∷ []) m).1.mem a ≡ m.mem a
  pub copy_copies :
      (destination source length khz : ℕ) (m : Machine Chip) (a : ℕ)
      → get_or (iap (51 ∷ destination ∷ source ∷ length ∷ khz ∷ []) m).0 0 0 ≡ 0
      → ((b : ℕ) → destination ≤ b → b < destination + length → m.mem b ≡ 0xff)
      → destination ≤ a
      → a < destination + length
      → (iap (51 ∷ destination ∷ source ∷ length ∷ khz ∷ []) m).1.mem a
        ≡ m.mem (source + (a - destination))
  pub copy_keeps :
      (destination source length khz : ℕ) (m : Machine Chip) (a : ℕ)
      → IsFree scratch a
      → (a < destination) ⊎ (destination + length ≤ a)
      → (iap (51 ∷ destination ∷ source ∷ length ∷ khz ∷ []) m).1.mem a ≡ m.mem a
