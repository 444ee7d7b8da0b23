-- ===== src/Iap/Spans.antt =====
-- rflpc_iap_write_buffer: what it can return, and writes that reach over more than two sectors.
use rflpc.Base.{
  ℕ, zero, suc, ◌+◌, ◌-◌, ◌^◌, ◌≤◌, ◌<◌, ◌==◌, if◌then◌else◌, ltb, leb, not, ◌&&◌, Bool, true,
  false, ◌≡◌, refl, ap, ◌⊎◌, inl, inr, List, Bool-cases, arith,
}
use rflpc.Base.Word.{u32}
use rflpc.Iap.{
  Machine, Ret, ok, minus, Rom, attempt, get_sector_from_address, get_address_from_sector, call,
  prepare_sectors, erase_sectors, copy_ram_to_flash, write_buffer_to_sector, write_to_sector,
  write_rest, write_full_sectors, write_buffer,
}
use rflpc.Iap.Sectors.{sector_of, sector_beyond, sectors_fit}

-- 0 or -1.
abbrev pub IsStatus : Ret → Type 0
IsStatus ok = Unit {0}
IsStatus (minus n) = n ≡ 1

abbrev pub IsError : Ret → Type 0
IsError ok = ⊥
IsError (minus n) = Unit {0}

-- A sector has at least 4096 bytes.
sector_size : (s : ℕ) → get_address_from_sector s + 4096 ≤ get_address_from_sector (s + 1)
unfolding get_address_from_sector
sector_size s = ground arith

sector_room : (s : ℕ) → get_address_from_sector (s + 1) ≤ get_address_from_sector s + 32768
unfolding get_address_from_sector
sector_room s = ground arith

status_error : (r : Ret) → IsStatus r → IsError r → r ≡ minus 1
status_error ok h k = absurd k
status_error (minus n) h k = ap minus h

status_cases : (r : Ret) → IsStatus r → (r ≡ ok) ⊎ (r ≡ minus 1)
status_cases ok h = inl refl
status_cases (minus n) h = inr (ap minus h)

module _ {Chip : Type 0} where
  branch-IsStatus :
      (b : Bool) (x y : Ret × Machine Chip)
      → IsStatus x.0
      → IsStatus y.0
      → IsStatus (if b then x else y).0
  branch-IsStatus true x y h k = h
  branch-IsStatus false x y h k = k

  attempt-IsStatus :
      (r : Ret × Machine Chip) (next : Machine Chip → Ret × Machine Chip)
      → IsStatus r.0
      → ((m : Machine Chip) → IsStatus (next m).0)
      → IsStatus (attempt r next).0
  attempt-IsStatus (ok, m) next h k = k m
  attempt-IsStatus (minus n, m) next h k = h

  attempt-IsError :
      (r : Ret × Machine Chip) (next : Machine Chip → Ret × Machine Chip)
      → ((m : Machine Chip) → IsError (next m).0)
      → IsError (attempt r next).0
  attempt-IsError (ok, m) next k = k m
  attempt-IsError (minus n, m) next k = tt

  attempt-IsError_first :
      (r : Ret × Machine Chip) (next : Machine Chip → Ret × Machine Chip)
      → IsError r.0
      → IsError (attempt r next).0
  attempt-IsError_first (ok, m) next h = absurd h
  attempt-IsError_first (minus n, m) next h = tt

module _ {Chip : Type 0} (iap : Rom Chip) where
  call-IsStatus : (command : List ℕ) (m : Machine Chip) → IsStatus (call iap command m).0
  unfolding call
  call-IsStatus command m = ground arith

  write_buffer_to_sector-IsStatus :
      (buffer sector : ℕ) (m : Machine Chip)
      → IsStatus (write_buffer_to_sector iap buffer sector m).0
  unfolding write_buffer_to_sector prepare_sectors erase_sectors copy_ram_to_flash
  write_buffer_to_sector-IsStatus buffer sector m =
      attempt-IsStatus (prepare_sectors iap sector sector m) _ (call-IsStatus _ m) λ m1.
        attempt-IsStatus (erase_sectors iap sector sector m1) _ (call-IsStatus _ m1) λ m2.
          attempt-IsStatus (prepare_sectors iap sector sector m2) _ (call-IsStatus _ m2)
            λ m3. call-IsStatus _ m3

  module _ (sector_buffer : ℕ) where
    write_to_sector-IsStatus :
        (destination buffer length : ℕ) (m : Machine Chip)
        → IsStatus (write_to_sector iap sector_buffer destination buffer length m).0
    unfolding write_to_sector
    write_to_sector-IsStatus destination buffer length m =
        let sector = get_sector_from_address destination in
        branch-IsStatus
          (not (sector == get_sector_from_address (u32 (destination + length + (2 ^ 32 - 1))))) _ _
          refl
          (branch-IsStatus (leb 16 sector) _ _ refl
            (write_buffer_to_sector-IsStatus sector_buffer sector _))

    -- A write over the end of its sector is refused.
    crossing_refused :
        (destination buffer length : ℕ) (m : Machine Chip)
        → 0 < length
        → destination + length < 2 ^ 32
        → get_address_from_sector (get_sector_from_address destination + 1) < destination + length
        → write_to_sector iap sector_buffer destination buffer length m ≡ (minus 1, m)
    unfolding write_to_sector
    crossing_refused destination buffer length m pos small over =
        let last : u32 (destination + length + (2 ^ 32 - 1)) ≡ destination + length - 1 =
          omega arith in
        ground (
          arith,
          last,
          sector_beyond (destination + length - 1) (get_sector_from_address destination + 1)
              (omega arith),
        )

    write_rest-IsStatus :
        (destination buffer length : ℕ) (m : Machine Chip)
        → IsStatus (write_rest iap sector_buffer destination buffer length m).0
    unfolding write_rest
    write_rest-IsStatus destination buffer length m =
        branch-IsStatus (ltb 0 length) _ _ (write_to_sector-IsStatus destination buffer length m) tt

    -- With more fuel than bytes the loop comes to an end.
    write_full_sectors-IsStatus :
        (fuel sector destination buffer length : ℕ) (m : Machine Chip)
        → length < fuel
        → IsStatus (write_full_sectors iap sector_buffer fuel sector destination buffer length m).0
    unfolding write_full_sectors
    write_full_sectors-IsStatus zero sector destination buffer length m h = absurd (omega arith)
    write_full_sectors-IsStatus (suc fuel) sector destination buffer length m h =
        let len = get_address_from_sector (sector + 1) - get_address_from_sector sector - 1 in
        elim (Bool-cases
          (not (sector == get_sector_from_address (destination + length)) && ltb 0 length)) [
            | inr e ↦ rw e (write_rest-IsStatus destination buffer length m)
            | inl e ↦ rw e (
                attempt-IsStatus (write_to_sector iap sector_buffer destination buffer len m) _
                  (write_to_sector-IsStatus destination buffer len m)
                  λ m1.
                    write_full_sectors-IsStatus fuel (get_sector_from_address (destination + len))
                      (destination + len) (buffer + len) (length - len) m1
                      (ground (arith, sector_size sector)))
          ]

    write_buffer-IsStatus :
        (destination buffer length : ℕ) (m : Machine Chip)
        → IsStatus (write_buffer iap sector_buffer destination buffer length m).0
    unfolding write_buffer
    write_buffer-IsStatus destination buffer length m =
        let sector = get_sector_from_address destination in
        let len = get_address_from_sector (sector + 1) - destination in
        branch-IsStatus (not (sector == get_sector_from_address (destination + length))) _ _
          (attempt-IsStatus (write_to_sector iap sector_buffer destination buffer len m) _
            (write_to_sector-IsStatus destination buffer len m)
            λ m1.
              write_full_sectors-IsStatus (length + 1) (sector + 1) (destination + len)
                (buffer + len) (length - len) m1 (omega arith))
          (write_rest-IsStatus destination buffer length m)

    -- One byte before the end of a sector, the loop asks for a write over its end.
    last_byte-IsError :
        (fuel sector destination buffer length : ℕ) (m : Machine Chip)
        → get_sector_from_address destination ≡ sector
        → destination + 1 ≡ get_address_from_sector (sector + 1)
        → 0 < length
        → destination + length < 2 ^ 32
        → get_address_from_sector sector + 65536 < 2 ^ 32
        → IsError
            (write_full_sectors iap sector_buffer (suc fuel) sector destination buffer length m).0
    unfolding write_full_sectors
    last_byte-IsError fuel sector destination buffer length m here edge pos small room =
        let len = get_address_from_sector (sector + 1) - get_address_from_sector sector - 1 in
        let leaves : (not (sector == get_sector_from_address (destination + length))
              && ltb 0 length)
            ≡ true =
          ground (arith, sector_beyond (destination + length) (sector + 1)) in
        let refused : write_to_sector iap sector_buffer destination buffer len m ≡ (minus 1, m) =
          crossing_refused destination buffer len m (omega (arith, sector_size sector))
            (omega (arith, sector_room sector)) (rw here (omega (arith, sector_size sector))) in
        rw (leaves, refused) tt

    -- The loop over a range that holds a whole sector fails.
    whole_sector-IsError :
        (fuel sector buffer length : ℕ) (m : Machine Chip)
        → get_address_from_sector (sector + 1) ≤ get_address_from_sector sector + length
        → get_address_from_sector sector + length + 65536 < 2 ^ 32
        → IsError
            (write_full_sectors iap sector_buffer
              (suc (suc fuel))
              sector
              (get_address_from_sector sector)
              buffer
              length
              m).0
    unfolding write_full_sectors
    whole_sector-IsError fuel sector buffer length m whole small =
        let start = get_address_from_sector sector in
        let len = get_address_from_sector (sector + 1) - start - 1 in
        let size = sector_size sector in
        let leaves : (not (sector == get_sector_from_address (start + length)) && ltb 0 length)
            ≡ true =
          ground (arith, sector_beyond (start + length) (sector + 1) whole, size) in
        let here : get_sector_from_address (start + len) ≡ sector =
          sector_of (start + len) sector (omega arith) (omega (arith, size)) in
        rw (leaves, here)
          (attempt-IsError (write_to_sector iap sector_buffer start buffer len m) _ λ m1.
            last_byte-IsError fuel sector (start + len) (buffer + len) (length - len) m1 here
              (omega (arith, size)) (omega (arith, size)) (omega arith) (omega arith))

    spanning-IsError :
        (destination buffer length : ℕ) (m : Machine Chip)
        → get_address_from_sector (get_sector_from_address destination + 2) ≤ destination + length
        → destination + length + 65536 < 2 ^ 32
        → IsError (write_buffer iap sector_buffer destination buffer length m).0
    unfolding write_buffer
    spanning-IsError destination buffer length m over small =
        let sector = get_sector_from_address destination in
        let next = get_address_from_sector (sector + 1) in
        let len = next - destination in
        let bounds = sectors_fit destination 0 in
        let two : sector + 2 ≡ sector + 1 + 1 = omega arith in
        let over' : get_address_from_sector (sector + 1 + 1) ≤ destination + length =
          rw two at over in
        let size : next + 4096 ≤ get_address_from_sector (sector + 1 + 1) =
          sector_size (sector + 1) in
        let leaves : not (sector == get_sector_from_address (destination + length)) ≡ true =
          ground
            (arith, sector_beyond (destination + length) (sector + 1) (omega (arith, bounds))) in
        let start : destination + len ≡ next = omega (arith, bounds) in
        let fuel : length + 1 ≡ suc (suc (length - 1)) = omega (arith, bounds) in
        rw (leaves, start, fuel)
          (attempt-IsError (write_to_sector iap sector_buffer destination buffer len m) _ λ m1.
            whole_sector-IsError (length - 1) (sector + 1) (buffer + len) (length - len) m1
              (omega (arith, bounds)) (omega (arith, bounds)))

    -- `rflpc_iap_write_buffer` always comes to an end (the fuel of `length + 1` rounds is enough), and what
    -- it returns is 0 or -1, whatever the ROM answers.
    pub write_buffer_ends :
        (destination buffer length : ℕ) (m : Machine Chip)
        → ((write_buffer iap sector_buffer destination buffer length m).0 ≡ ok)
          ⊎ ((write_buffer iap sector_buffer destination buffer length m).0 ≡ minus 1)
    write_buffer_ends destination buffer length m =
        status_cases _ (write_buffer-IsStatus destination buffer length m)

    -- A write that starts in one sector and reaches to the end of the next one or beyond it is never
    -- done by `rflpc_iap_write_buffer`, which returns -1: its loop copies one byte less than the
    -- sector has, and then asks for a write over the sector's end. (The addresses stay 65536 bytes below
    -- 2^32.)
    pub write_buffer_spanning_fails :
        (destination buffer length : ℕ) (m : Machine Chip)
        → get_address_from_sector (get_sector_from_address destination + 2) ≤ destination + length
        → destination + length + 65536 < 2 ^ 32
        → (write_buffer iap sector_buffer destination buffer length m).0 ≡ minus 1
    write_buffer_spanning_fails destination buffer length m over small =
        status_error _ (write_buffer-IsStatus destination buffer length m)
          (spanning-IsError destination buffer length m over small)
