-- ===== src/Tinylibc/Memset.antt =====
-- rflpc17xx/tinylibc/memset.c. Addresses are plain numbers: the buffer lies in the address space.
pub mod Step
pub mod Fills
use rflpc.Base.{ℕ, zero, suc, ◌+◌, ◌/◌, ◌%◌, ◌==◌, if◌then◌else◌, bit_and, bit_or}
use rflpc.Base.Word.{u8, u32, shl, shr}
use rflpc.Base.Memory.{Memory, store}
use rflpc.Tinylibc.Duff.{duff}
use rflpc.Tinylibc.Memcpy.{is_word_aligned}

-- The running pointer (`bdest` or `wdest`) and the memory.
pub record Filler : Type 0 where
  pub dest : ℕ
  pub mem : Memory

-- `*bdest++ = c` on `uint8_t`
unfoldable pub set_byte : ℕ → Filler → Filler
set_byte c f = record { dest = f.dest + 1; mem = store f.mem f.dest (u8 c) }

-- `*wdest++ = val` on `uint32_t`, low byte first.
unfoldable pub set_word : ℕ → Filler → Filler
set_word val f =
    let m0 = store f.mem f.dest (u8 val) in
    let m1 = store m0 (f.dest + 1) (u8 (shr val 8)) in
    let m2 = store m1 (f.dest + 2) (u8 (shr val 16)) in
    record { dest = f.dest + 4; mem = store m2 (f.dest + 3) (u8 (shr val 24)) }

-- `c << 24 | c << 16 | c << 8 | c`
unfoldable pub word_of : ℕ → ℕ
word_of c = u32 (bit_or (bit_or (bit_or (shl c 24) (shl c 16)) (shl c 8)) c)

-- `rflpc_memset_unaligned_fast`
unfoldable pub memset_unaligned_fast : ℕ → ℕ → Filler → Filler
memset_unaligned_fast c n f = duff (set_byte c) n (u32 (n + 7) / 8) f

-- `rflpc_memset_aligned_fast`: whole words, then what remains, byte by byte.
unfoldable pub memset_aligned_fast : ℕ → ℕ → Filler → Filler
memset_aligned_fast c n f =
    let words = duff (set_word (word_of c)) (n / 4) ((n / 4 + 7) / 8) f in
    let left = n % 4 in if left == 0 then words else memset_unaligned_fast c left words

-- `while (n && !IS_WORD_ALIGNED(bdest)) …`, then the aligned part if anything is left.
unfoldable pub memset_from : ℕ → ℕ → Filler → Filler
memset_from c zero f = f
memset_from c (suc n) f =
    let rest = memset_from c n (set_byte c f) in
    if is_word_aligned f.dest then memset_aligned_fast c (suc n) f else rest

-- `memset (dest, c, n)`: the memory afterwards.
unfoldable pub memset : ℕ → ℕ → ℕ → Memory → Memory
memset dest c n mem =
    if n == 0 then mem else (memset_from (bit_and c 0xff) n (record { dest = dest; mem = mem })).mem
