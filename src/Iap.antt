-- ===== src/Iap.antt =====
-- rflpc17xx/iap.c: in-application programming of the flash. The ROM function at IAP_FUNCTION_ADDR is
-- not part of the repository: it is the parameter `iap`, which gets the command array and the
-- machine and leaves the result array and a machine.
pub mod Sectors
pub mod Manual
pub mod Write
pub mod Spans
mod Tests
use rflpc.Base.{
  ℕ, zero, suc, ◌+◌, ◌-◌, ◌*◌, ◌/◌, ◌^◌, ◌==◌, if◌then◌else◌, ltb, leb, not, ◌&&◌, List, [], ◌∷◌,
  get_or, bit_and,
}
use rflpc.Base.Word.{u32, shl, shr}
use rflpc.Base.Memory.{Memory}
use rflpc.Tinylibc.Memcpy.{memcpy}

-- The state of the flash controller is the ROM's affair.
pub record Machine (Chip : Type 0) : Type 0 where
  pub chip : Chip
  pub mem : Memory
  pub system_clock : ℕ

-- An `int` that is 0 or negative, as the functions return it.
pub data Ret : Type 0 where
  ok : Ret
  minus : ℕ → Ret

abbrev pub Rom : Type 0 → Type 0
Rom Chip = List ℕ → Machine Chip → List ℕ × Machine Chip

-- `IAP_SMALL_SECTOR_BUFFER_SIZE` and `IAP_LARGE_SECTOR_BUFFER_SIZE`
abbrev pub small_size : ℕ
small_size = 4096

abbrev pub large_size : ℕ
large_size = 32768

-- `rflpc_iap_get_sector_from_address`
unfoldable pub get_sector_from_address : ℕ → ℕ
get_sector_from_address a = if ltb a 0x10000 then shr a 12 else 16 + shr (a - 0x10000) 15

-- `rflpc_iap_get_address_from_sector`
unfoldable pub get_address_from_sector : ℕ → ℕ
get_address_from_sector s = if ltb s 16 then shl s 12 else 0x10000 + shl (s - 16) 15

-- `if (ret != 0) return ret;`
abbrev pub attempt :
    {Chip : Type 0} → Ret × Machine Chip → (Machine Chip → Ret × Machine Chip) → Ret × Machine Chip
attempt (ok, m) next = next m
attempt (minus n, m) next = (minus n, m)

-- `if (… != 0) return -n;`
abbrev pub attempt_or :
    {Chip : Type 0}
    → ℕ
    → Ret × Machine Chip
    → (Machine Chip → Ret × Machine Chip)
    → Ret × Machine Chip
attempt_or n (ok, m) next = next m
attempt_or n (minus _, m) next = (minus n, m)

module _ {Chip : Type 0} (iap : Rom Chip) where
  -- `iap(command, command)` and `(command[0] == IAP_CMD_SUCCESS) ? 0 : -1`
  unfoldable pub call : List ℕ → Machine Chip → Ret × Machine Chip
  call command m =
      let (result, m') = iap command m in (if get_or result 0 0 == 0 then ok else minus 1, m')

  -- `rflpc_iap_get_serial_number`: the four words, if the command succeeds.
  unfoldable pub get_serial_number : Machine Chip → Ret × List ℕ
  get_serial_number m =
      let (result, m') = iap (58 ∷ 0 ∷ 0 ∷ 0 ∷ 0 ∷ []) m in
      if get_or result 0 0 == 0
      then (ok, get_or result 1 0 ∷ get_or result 2 0 ∷ get_or result 3 0 ∷ get_or result 4 0 ∷ [])
      else (minus 1, [])

  -- `rflpc_iap_prepare_sectors_for_writing`
  unfoldable pub prepare_sectors : ℕ → ℕ → Machine Chip → Ret × Machine Chip
  prepare_sectors first last m = call (50 ∷ first ∷ last ∷ []) m

  -- `rflpc_iap_erase_sectors`
  unfoldable pub erase_sectors : ℕ → ℕ → Machine Chip → Ret × Machine Chip
  erase_sectors first last m = call (52 ∷ first ∷ last ∷ m.system_clock / 1000 ∷ []) m

  -- `rflpc_iap_copy_ram_to_flash`
  unfoldable pub copy_ram_to_flash : ℕ → ℕ → ℕ → Machine Chip → Ret × Machine Chip
  copy_ram_to_flash destination source length m =
      call (51 ∷ destination ∷ source ∷ length ∷ m.system_clock / 1000 ∷ []) m

  -- `rflpc_iap_write_buffer_to_sector`
  unfoldable pub write_buffer_to_sector : ℕ → ℕ → Machine Chip → Ret × Machine Chip
  write_buffer_to_sector buffer sector m =
      let destination = get_address_from_sector sector in
      attempt (prepare_sectors sector sector m) λ m1. attempt (erase_sectors sector sector m1) λ m2.
        attempt (prepare_sectors sector sector m2) λ m3.
          copy_ram_to_flash destination buffer (if ltb sector 16 then small_size else large_size) m3

  -- `iap_sector_buffer` stands at `sector_buffer`.
  module _ (sector_buffer : ℕ) where
    -- `rflpc_iap_write_to_sector`
    unfoldable pub write_to_sector : ℕ → ℕ → ℕ → Machine Chip → Ret × Machine Chip
    write_to_sector destination buffer length m =
        let sector = get_sector_from_address destination in
        let start = get_address_from_sector sector in
        if not (sector == get_sector_from_address (u32 (destination + length + (2 ^ 32 - 1))))
        then (minus 1, m)
        else if leb 16 sector
        then (minus 1, m)
        else (let content = memcpy sector_buffer start small_size m.mem in
            let offset = destination - start in
            let merged = memcpy (sector_buffer + offset) buffer length content in
            write_buffer_to_sector sector_buffer sector (record m { mem = merged }))

    -- The last statement of `rflpc_iap_write_buffer`.
    unfoldable pub write_rest : ℕ → ℕ → ℕ → Machine Chip → Ret × Machine Chip
    write_rest destination buffer length m =
        if ltb 0 length then write_to_sector destination buffer length m else (ok, m)

    -- The loop of `rflpc_iap_write_buffer`, on fuel; -100 stands for no fuel left.
    unfoldable pub write_full_sectors : ℕ → ℕ → ℕ → ℕ → ℕ → Machine Chip → Ret × Machine Chip
    write_full_sectors zero sector destination buffer length m = (minus 100, m)
    write_full_sectors (suc fuel) sector destination buffer length m =
        let len = get_address_from_sector (sector + 1) - get_address_from_sector sector - 1 in
        let further = attempt (write_to_sector destination buffer len m) (
          write_full_sectors fuel (get_sector_from_address (destination + len)) (destination + len)
            (buffer + len) (length - len)) in
        if not (sector == get_sector_from_address (destination + length)) && ltb 0 length
        then further
        else write_rest destination buffer length m

    -- `rflpc_iap_write_buffer`
    unfoldable pub write_buffer : ℕ → ℕ → ℕ → Machine Chip → Ret × Machine Chip
    write_buffer destination buffer length m =
        let sector = get_sector_from_address destination in
        let len = get_address_from_sector (sector + 1) - destination in
        let in_parts = attempt (write_to_sector destination buffer len m) (
          write_full_sectors (length + 1) (sector + 1) (destination + len) (buffer + len)
            (length - len)) in
        if not (sector == get_sector_from_address (destination + length))
        then in_parts
        else write_rest destination buffer length m

    -- What `rflpc_iap_transfert_4ks_to_32k` does with the last bytes.
    unfoldable pub transfer_rest : ℕ → ℕ → ℕ → ℕ → ℕ → Machine Chip → Ret × Machine Chip
    transfer_rest sector destination source offset length m =
        if ltb 0 length
        then (let loaded = record m { mem = memcpy sector_buffer (source + offset) length m.mem } in
            attempt_or 5 (prepare_sectors sector sector loaded) λ m1.
              attempt_or 6 (copy_ram_to_flash (destination + offset) sector_buffer small_size m1)
                λ m2. (ok, m2))
        else (ok, m)

    -- Its loop, on fuel; -100 stands for no fuel left.
    unfoldable pub transfer_sectors : ℕ → ℕ → ℕ → ℕ → ℕ → ℕ → Machine Chip → Ret × Machine Chip
    transfer_sectors zero sector destination source offset length m = (minus 100, m)
    transfer_sectors (suc fuel) sector destination source offset length m =
        let loaded = record m { mem = memcpy sector_buffer (source + offset) small_size m.mem } in
        let further = attempt_or 3 (prepare_sectors sector sector loaded) λ m1.
          attempt_or 4 (copy_ram_to_flash (destination + offset) sector_buffer small_size m1) (
            transfer_sectors fuel sector destination source (offset + small_size)
              (length - small_size)) in
        if ltb small_size length
        then further
        else transfer_rest sector destination source offset length m

    -- `rflpc_iap_transfert_4ks_to_32k`
    unfoldable pub transfert_4ks_to_32k : ℕ → ℕ → ℕ → Machine Chip → Ret × Machine Chip
    transfert_4ks_to_32k destination source length m =
        let sector = get_sector_from_address destination in
        attempt_or 1 (prepare_sectors sector sector m) λ m1.
          attempt_or 2 (erase_sectors sector sector m1)
            λ m2. transfer_sectors (length + 1) sector destination source 0 length m2
