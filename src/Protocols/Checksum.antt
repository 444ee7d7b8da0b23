-- ===== src/Protocols/Checksum.antt =====
-- samples/dhcp/protocols.c, proto_checksum: the Internet checksum.
use rflpc.Base.{
  ℕ, zero, suc, ◌+◌, ◌*◌, ◌^◌, ◌==◌, if◌then◌else◌, bit_and, bit_or, Option, some, none,
}
use rflpc.Base.Word.{u32, shl, shr, not32}
use rflpc.Base.Memory.{Memory}

-- `NTOHS`
unfoldable pub ntohs : ℕ → ℕ
ntohs v = bit_or (bit_and (shr v 8) 0xff) (shl (bit_and v 0xff) 8)

-- `*((uint16_t*)buffer)`: the core loads the low byte first.
unfoldable pub load16 : Memory → ℕ → ℕ
load16 m a = m a + m (a + 1) * 2 ^ 8

-- `while (bytes_count >= 2) …` and, for an odd count, the last byte.
unfoldable pub add_words : ℕ → Memory → ℕ → ℕ → ℕ
add_words zero m buffer csum = csum
add_words (suc zero) m buffer csum = u32 (csum + shl (m buffer) 8)
add_words (suc (suc n)) m buffer csum =
    add_words n m (buffer + 2) (u32 (csum + ntohs (load16 m buffer)))

-- `while (csum & 0xFFFF0000) …`, on fuel
unfoldable pub add_carries : ℕ → ℕ → Option ℕ
add_carries zero csum = none
add_carries (suc fuel) csum =
    let further = add_carries fuel (u32 (bit_and csum 0xffff + bit_and (shr csum 16) 0xffff)) in
    if bit_and csum 0xffff0000 == 0 then some csum else further

abbrev pub inverted : Option ℕ → Option ℕ
inverted none = none
inverted (some csum) = some (bit_and (not32 csum) 0xffff)

-- `proto_checksum (buffer, bytes_count)`. Three rounds are enough for 32 bits.
unfoldable pub proto_checksum : Memory → ℕ → ℕ → Option ℕ
proto_checksum m buffer bytes_count = inverted (add_carries 3 (add_words bytes_count m buffer 0))
