-- ===== src/Tinylibc/Memcpy.antt =====
-- rflpc17xx/tinylibc/memcpy.c. Addresses are plain numbers: the buffers lie in the address space.
pub mod Step
pub mod Copies
use rflpc.Base.{ℕ, ◌+◌, ◌/◌, ◌%◌, ◌==◌, if◌then◌else◌, bit_and, Bool, ◌&&◌}
use rflpc.Base.Word.{u32}
use rflpc.Base.Memory.{Memory, store}
use rflpc.Tinylibc.Duff.{duff}

-- The two running pointers (`bdest`, `bsrc` or `wdest`, `wsrc`) and the memory.
pub record Cursor : Type 0 where
  pub dest : ℕ
  pub src : ℕ
  pub mem : Memory

-- `IS_WORD_ALIGNED`
unfoldable pub is_word_aligned : ℕ → Bool
is_word_aligned a = bit_and a 0x3 == 0

-- `*bdest++ = *bsrc++` on `uint8_t`
unfoldable pub copy_byte : Cursor → Cursor
copy_byte c = record { dest = c.dest + 1; src = c.src + 1; mem = store c.mem c.dest (c.mem c.src) }

-- `*wdest++ = *wsrc++` on `uint32_t`: the four bytes are read, then written.
unfoldable pub copy_word : Cursor → Cursor
copy_word c =
    let m0 = store c.mem c.dest (c.mem c.src) in
    let m1 = store m0 (c.dest + 1) (c.mem (c.src + 1)) in
    let m2 = store m1 (c.dest + 2) (c.mem (c.src + 2)) in
    record { dest = c.dest + 4; src = c.src + 4; mem = store m2 (c.dest + 3) (c.mem (c.src + 3)) }

-- `rflpc_memcpy_unaligned_fast`
unfoldable pub memcpy_unaligned_fast : ℕ → Cursor → Cursor
memcpy_unaligned_fast n c = duff copy_byte n (u32 (n + 7) / 8) c

-- `rflpc_memcpy_aligned_fast`: whole words, then what remains, byte by byte.
unfoldable pub memcpy_aligned_fast : ℕ → Cursor → Cursor
memcpy_aligned_fast n c =
    let words = duff copy_word (n / 4) ((n / 4 + 7) / 8) c in
    let left = n % 4 in if left == 0 then words else memcpy_unaligned_fast left words

-- `memcpy (dest, src, n)`: the memory afterwards.
unfoldable pub memcpy : ℕ → ℕ → ℕ → Memory → Memory
memcpy dest src n mem =
    let c : Cursor = record { dest = dest; src = src; mem = mem } in
    if n == 0
    then mem
    else if is_word_aligned dest && is_word_aligned src
    then (memcpy_aligned_fast n c).mem
    else (memcpy_unaligned_fast n c).mem
