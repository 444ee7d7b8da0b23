-- ===== src/Dhcp/Client/Requests.antt =====
-- The options that the client writes are those that the getter finds.
use rflpc.Base.{ℕ, ◌+◌, ◌<◌, ◌≤◌, List, length, ◌≡◌, ◌⊎◌}
use rflpc.Base.Memory.{Memory, load_all}

-- What dhcp_create_option_simple leaves: the option with its value, and all else but its parameter as it was.
record Put (slot : ℕ) (m : Memory) (p code : ℕ) (value : List ℕ) (M : Memory) : Type 0 where
  head : M p ≡ code
  size : M (p + 1) ≡ length value
  bytes : load_all M (p + 2) (length value) ≡ value
  kept : (a : ℕ) → (a < p) ⊎ (p + length value + 2 ≤ a) → (a < slot) ⊎ (slot + 4 ≤ a) → M a ≡ m a
