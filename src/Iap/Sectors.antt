-- ===== src/Iap/Sectors.antt =====
-- The map of the flash sectors.
use rflpc.Base.{ℕ, ◌+◌, ◌*◌, ◌≤◌, ◌<◌, ◌≡◌, arith}
use rflpc.Iap.{get_sector_from_address, get_address_from_sector}

-- The two functions fit together: the sector of a sector's first address is that sector, and
-- each address lies at or behind the first address of its sector and before that of the next.
pub sectors_fit :
    (a s : ℕ)
    → (get_sector_from_address (get_address_from_sector s) ≡ s)
      × (get_address_from_sector (get_sector_from_address a) ≤ a)
      × (a < get_address_from_sector (get_sector_from_address a + 1))
unfolding get_sector_from_address get_address_from_sector
sectors_fit a s = ground arith

-- Addresses in the same sector are those between its bounds.
pub sector_of :
    (a s : ℕ)
    → get_address_from_sector s ≤ a
    → a < get_address_from_sector (s + 1)
    → get_sector_from_address a ≡ s
unfolding get_sector_from_address get_address_from_sector
sector_of a s h k = ground arith

pub sector_beyond : (a s : ℕ) → get_address_from_sector s ≤ a → s ≤ get_sector_from_address a
unfolding get_sector_from_address get_address_from_sector
sector_beyond a s h = ground arith

-- The size of a small sector.
pub small_sector :
    (s : ℕ)
    → s < 16
    → (get_address_from_sector s ≡ s * 4096) × (get_address_from_sector (s + 1) ≡ s * 4096 + 4096)
unfolding get_address_from_sector
small_sector s h = ground arith

pub sector_small : (a : ℕ) → get_sector_from_address a < 16 → a < 0x10000
unfolding get_sector_from_address
sector_small a h = ground arith
