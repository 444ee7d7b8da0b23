-- ===== src/Iap/Write.antt =====
-- rflpc_iap_write_to_sector against its purpose: the bytes are in the flash, and no others changed.
use rflpc.Base.{
  ℕ, ◌+◌, ◌-◌, ◌*◌, ◌^◌, ◌≤◌, ◌<◌, ◌==◌, if◌then◌else◌, ltb, leb, not, true, false, ◌≡◌, refl, sym,
  ap, ◌∙◌, ◌⊎◌, inl, List, get_or, Bool, arith,
}
use rflpc.Base.Word.{u32}
use rflpc.Base.Memory.{Memory}
use rflpc.Tinylibc.Memcpy.{memcpy, is_word_aligned}
use rflpc.Tinylibc.Memcpy.Step.{copied, AreDisjoint}
use rflpc.Tinylibc.Memcpy.Copies.{memcpy_copies}
use rflpc.Iap.{
  Machine, Ret, ok, minus, Rom, small_size, large_size, attempt, get_sector_from_address,
  get_address_from_sector, call, prepare_sectors, erase_sectors, copy_ram_to_flash,
  write_buffer_to_sector, write_to_sector,
}
use rflpc.Iap.Sectors.{sectors_fit, small_sector}
use rflpc.Iap.Manual.{IsFree, FollowsManual}

module _ {Chip : Type 0} where
  attempt-eq-ok :
      (r : Ret × Machine Chip) (next : Machine Chip → Ret × Machine Chip) {m' : Machine Chip}
      → attempt r next ≡ (ok, m')
      → (m : Machine Chip) × (r ≡ (ok, m)) × (next m ≡ (ok, m'))
  attempt-eq-ok (ok, m) next h = (m, refl, h)
  attempt-eq-ok (minus n, m) next h = cc

  guards_passed :
      (same large : Bool) (r : Ret × Machine Chip) (m : Machine Chip) {m' : Machine Chip}
      → (if not same then (minus 1, m) else if large then (minus 1, m) else r) ≡ (ok, m')
      → (same ≡ true) × (large ≡ false) × (r ≡ (ok, m'))
  guards_passed false large r m h = cc
  guards_passed true false r m h = (refl, refl, h)
  guards_passed true true r m h = cc

module _ {Chip : Type 0} (iap : Rom Chip) (scratch : ℕ) (manual : FollowsManual iap scratch) where
  call-eq-ok :
      (command : List ℕ) (m : Machine Chip) {m' : Machine Chip}
      → call iap command m ≡ (ok, m')
      → (get_or (iap command m).0 0 0 ≡ 0) × ((iap command m).1 ≡ m')
  unfolding call
  call-eq-ok command m h = ground arith

  -- A small sector that was written holds the buffer, and nothing else has changed.
  write_buffer_to_sector_ok :
      (buffer sector : ℕ) (m : Machine Chip) {m' : Machine Chip}
      → sector < 16
      → AreDisjoint (sector * 4096) buffer 4096
      → (buffer + 4096 ≤ scratch) ⊎ (scratch + 32 ≤ buffer)
      → 0x10000 ≤ scratch
      → write_buffer_to_sector iap buffer sector m ≡ (ok, m')
      → (a : ℕ) → IsFree scratch a
      → m'.mem a ≡ copied m.mem (sector * 4096) buffer 4096 a
  unfolding write_buffer_to_sector prepare_sectors erase_sectors copy_ram_to_flash
  write_buffer_to_sector_ok buffer sector m {m'} small apart clear high h a free =
      let (start, end) = small_sector sector small in
      let (m1, prepared, h1) = attempt-eq-ok (prepare_sectors iap sector sector m) _ h in
      let (m2, erased, h2) = attempt-eq-ok (erase_sectors iap sector sector m1) _ h1 in
      let (m3, again, h3) = attempt-eq-ok (prepare_sectors iap sector sector m2) _ h2 in
      let (_, is_m1) = call-eq-ok _ m prepared in
      let (blank, is_m2) = call-eq-ok _ m1 erased in
      let (_, is_m3) = call-eq-ok _ m2 again in
      let one : (b : ℕ) → IsFree scratch b → m1.mem b ≡ m.mem b =
        λ b f. ap (λ x. x.mem b) (sym is_m1) ∙ manual.prepare_keeps sector sector m b f in
      let three : (b : ℕ) → IsFree scratch b → m3.mem b ≡ m2.mem b =
        λ b f. ap (λ x. x.mem b) (sym is_m3) ∙ manual.prepare_keeps sector sector m2 b f in
      let two_inside : (b : ℕ) → sector * 4096 ≤ b → b < sector * 4096 + 4096 → m2.mem b ≡ 0xff =
        λ b p q.
          ap (λ x. x.mem b) (sym is_m2)
          ∙ manual.erase_blanks sector sector _ m1 b blank (omega (arith, start))
              (omega (arith, end)) in
      let two_outside : (b : ℕ)
          → IsFree scratch b
          → (b < sector * 4096) ⊎ (sector * 4096 + 4096 ≤ b)
          → m2.mem b ≡ m1.mem b =
        λ b f p.
          ap (λ x. x.mem b) (sym is_m2)
          ∙ manual.erase_keeps sector sector _ m1 b f (omega (arith, start, end)) in
      let size : (if ltb sector 16 then small_size else large_size) ≡ 4096 = ground arith in
      let full : copy_ram_to_flash iap (sector * 4096) buffer 4096 m3 ≡ (ok, m') =
        rw (start, size) at h3 in
      let (done, is_m') = call-eq-ok _ m3 full in
      let inside : sector * 4096 ≤ a
          → a < sector * 4096 + 4096
          → m'.mem a ≡ m.mem (buffer + (a - sector * 4096)) =
        λ p q.
          ap (λ x. x.mem a) (sym is_m')
          ∙ manual.copy_copies (sector * 4096) buffer 4096 _ m3 a done
              (λ b i j. three b (omega arith) ∙ two_inside b i j) p q
          ∙ three _ (omega arith)
          ∙ two_outside _ (omega arith) (omega arith)
          ∙ one _ (omega arith) in
      let outside : (a < sector * 4096) ⊎ (sector * 4096 + 4096 ≤ a) → m'.mem a ≡ m.mem a = λ p.
        ap (λ x. x.mem a) (sym is_m')
        ∙ manual.copy_keeps (sector * 4096) buffer 4096 _ m3 a free p
        ∙ three a free
        ∙ two_outside a free p
        ∙ one a free in
      ground (arith, inside, outside)

  -- What the two copies leave in iap_sector_buffer and in the rest of memory.
  abbrev merged : ℕ → ℕ → ℕ → ℕ → ℕ → Memory → Memory
  merged sector_buffer start offset buffer length mem =
      memcpy (sector_buffer + offset) buffer length (memcpy sector_buffer start small_size mem)

  module _ (sector_buffer start offset buffer length : ℕ) (mem : Memory)
      (below : start + 4096 ≤ sector_buffer) (fits : offset + length ≤ 4096)
      (small : length < 2 ^ 31)
      (apart : (buffer + length ≤ sector_buffer) ⊎ (sector_buffer + 4096 ≤ buffer))
      (long : (4 ≤ length) ⊎ (is_word_aligned buffer ≡ false)) where
    sector_read :
        (a : ℕ)
        → memcpy sector_buffer start small_size mem a ≡ copied mem sector_buffer start 4096 a
    sector_read a =
        memcpy_copies sector_buffer start 4096 mem (omega arith) (omega arith) (inl (omega arith)) a

    bytes_merged :
        (a : ℕ)
        → merged sector_buffer start offset buffer length mem a
          ≡ copied
              (memcpy sector_buffer start small_size mem)
              (sector_buffer + offset)
              buffer
              length
              a
    bytes_merged a =
        memcpy_copies (sector_buffer + offset) buffer length _ small (omega arith) (ground arith) a

    merged_elsewhere :
        (a : ℕ)
        → (a < sector_buffer) ⊎ (sector_buffer + 4096 ≤ a)
        → merged sector_buffer start offset buffer length mem a ≡ mem a
    merged_elsewhere a out = ground (arith, bytes_merged a, sector_read a)

    merged_byte :
        (k : ℕ)
        → k < 4096
        → merged sector_buffer start offset buffer length mem (sector_buffer + k)
          ≡ copied mem (start + offset) buffer length (start + k)
    merged_byte k inside = ground (
      arith,
      bytes_merged (sector_buffer + k),
      sector_read (sector_buffer + k),
      sector_read (buffer + (k - offset)),
    )

  write_to_sector-eq-ok :
      (sector_buffer destination buffer length : ℕ) (m m' : Machine Chip)
      → 0 < length
      → destination + length < 2 ^ 32
      → write_to_sector iap sector_buffer destination buffer length m ≡ (ok, m')
      → (s : ℕ) × (s < 16)
        × (s * 4096 ≤ destination)
        × (destination + length ≤ s * 4096 + 4096)
        × (write_buffer_to_sector iap sector_buffer s (record m {
          mem = merged sector_buffer (s * 4096) (destination - s * 4096) buffer length m.mem;
        })
            ≡ (ok, m'))
  unfolding write_to_sector
  write_to_sector-eq-ok sector_buffer destination buffer length m m' pos small h =
      let s = get_sector_from_address destination in
      let (in_one, is_small, wrote) =
        guards_passed
          (get_sector_from_address destination
            == get_sector_from_address (u32 (destination + length + (2 ^ 32 - 1))))
          (leb 16 (get_sector_from_address destination)) _ m h in
      let last : u32 (destination + length + (2 ^ 32 - 1)) ≡ destination + (length - 1) =
        omega arith in
      let same : get_sector_from_address (destination + (length - 1)) ≡ s =
        ground (arith, in_one, last) in
      let few : s < 16 = ground (arith, is_small) in
      let (start, end) = small_sector s few in
      let low : get_address_from_sector s ≤ destination = (sectors_fit destination 0).1 in
      let high : destination + (length - 1) < get_address_from_sector (s + 1) =
        rw same at (sectors_fit (destination + (length - 1)) 0).2 in
      (s, few, omega (arith, start, low), omega (arith, same, end, high), rw start at wrote)

  module _ (sector_buffer : ℕ) (beyond : 0x80000 ≤ sector_buffer) (high : 0x10000 ≤ scratch)
      (clear : (sector_buffer + 4096 ≤ scratch) ⊎ (scratch + 32 ≤ sector_buffer)) where
    -- If `rflpc_iap_write_to_sector` returns 0 and the ROM follows the manual, the bytes of the buffer
    -- are at the destination, and every other byte is what it was: the rest of the sector too, and all of
    -- memory but the 4 KB of iap_sector_buffer and the 32 bytes the ROM uses. The buffer may lie anywhere
    -- outside iap_sector_buffer, and it has fewer than 2^31 bytes, and four or more or a start that is not word
    -- aligned.
    pub write_to_sector_stores :
        (destination buffer length : ℕ) (m : Machine Chip) (m' : Machine Chip)
        → 0 < length
        → length < 2 ^ 31
        → destination < 2 ^ 31
        → (buffer + length ≤ sector_buffer) ⊎ (sector_buffer + 4096 ≤ buffer)
        → (4 ≤ length) ⊎ (is_word_aligned buffer ≡ false)
        → write_to_sector iap sector_buffer destination buffer length m ≡ (ok, m')
        → (a : ℕ) → IsFree scratch a
        → (a < sector_buffer) ⊎ (sector_buffer + 4096 ≤ a)
        → m'.mem a ≡ copied m.mem destination buffer length a
    write_to_sector_stores destination buffer length m m' pos small near apart long h a free out =
        let (s, few, low, top, wrote) =
          write_to_sector-eq-ok sector_buffer destination buffer length m m' pos (omega arith) h in
        let flash =
          write_buffer_to_sector_ok sector_buffer s _ few (omega arith) clear high wrote a free in
        ground (
          arith,
          flash,
          merged_elsewhere sector_buffer (s * 4096) (destination - s * 4096) buffer length m.mem
              (omega arith) (omega arith) small apart long a out,
          merged_byte sector_buffer (s * 4096) (destination - s * 4096) buffer length m.mem
              (omega arith) (omega arith) small apart long (a - s * 4096),
        )
