-- ===== src/Protocols/IpBack.antt =====
-- The headers of IPv4 and ICMP of samples/dhcp/protocols.c.
use rflpc.Base.{
  ℕ, ◌+◌, ◌*◌, ◌^◌, ◌<◌, ◌≤◌, ◌-◌, ◌≡◌, ◌≢◌, refl, ap, sym, ◌∙◌, ◌⊎◌, ◌++◌, bit_and, List, [], ◌∷◌,
  true, false, ◌==◌, some, arith,
}
use rflpc.Base.Bits.{bit_and-mask}
use rflpc.Base.Word.{shr}
use rflpc.Base.Memory.{
  Memory, store, store_all, store_all_inside, store_all_outside, store_all-over,
}
use rflpc.Protocols.Fields.{put_two, put_four}
use rflpc.Protocols.Checksum.{proto_checksum}
use rflpc.Protocols.Ip.{IpHead, ip_bytes, header_length, with_checksum, ip_demangle, ip_mangle}
use rflpc.Protocols.RoundTrip.{two_stored, four_stored}
use rflpc.Protocols.Verify.{proto_checksum_lem, proto_checksum_verifies}

-- The fields of an IPv4 header fit their widths.
pub record FitsIp (h : IpHead) : Type 0 where
  pub version_length : h.version_length < 2 ^ 8
  pub dscp_ecn : h.dscp_ecn < 2 ^ 8
  pub total_length : h.total_length < 2 ^ 16
  pub identification : h.identification < 2 ^ 16
  pub flags_frag_offset : h.flags_frag_offset < 2 ^ 16
  pub ttl : h.ttl < 2 ^ 8
  pub protocol : h.protocol < 2 ^ 8
  pub header_checksum : h.header_checksum < 2 ^ 16
  pub src_addr : h.src_addr < 2 ^ 32
  pub dst_addr : h.dst_addr < 2 ^ 32

ip_stored_back :
    (h : IpHead) (m : Memory) (packet : ℕ)
    → FitsIp h
    → ip_demangle (store_all m packet (ip_bytes h)) packet ≡ h
unfolding ip_demangle
ip_stored_back h m packet fits =
    let bs = ip_bytes h in
    λ i. record {
      version_length = store_all_inside m packet bs 0 (omega arith) i;
      dscp_ecn = store_all_inside m packet bs 1 (omega arith) i;
      total_length =
          two_stored m packet bs 2 h.total_length (omega arith) fits.total_length refl refl i;
      identification =
          two_stored m packet bs 4 h.identification (omega arith) fits.identification refl refl i;
      flags_frag_offset =
          two_stored m packet bs 6 h.flags_frag_offset (omega arith) fits.flags_frag_offset refl
            refl i;
      ttl = store_all_inside m packet bs 8 (omega arith) i;
      protocol = store_all_inside m packet bs 9 (omega arith) i;
      header_checksum =
          two_stored m packet bs 10 h.header_checksum (omega arith) fits.header_checksum refl refl
            i;
      src_addr =
          four_stored m packet bs 12 h.src_addr (omega arith) fits.src_addr refl refl refl refl i;
      dst_addr =
          four_stored m packet bs 16 h.dst_addr (omega arith) fits.dst_addr refl refl refl refl i;
    }

-- A header that proto_ip_mangle stores with a checksum of its own (not 0) proto_ip_demangle reads back.
pub ip_back :
    (h : IpHead) (m : Memory) (packet : ℕ)
    → FitsIp h
    → h.header_checksum ≢ 0
    → (m' : Memory) × (ip_mangle h m packet ≡ some (h, m')) × (ip_demangle m' packet ≡ h)
unfolding ip_mangle
ip_back h m packet fits given =
    let own : (h.header_checksum == 0) ≡ false = ground arith in
    (store_all m packet (ip_bytes h), rw own refl, ip_stored_back h m packet fits)

abbrev pub AreBytes : List ℕ → Type 0
AreBytes [] = Unit {0}
AreBytes (b ∷ bs) = (b < 256) × AreBytes bs

pub store_all_bytes :
    (m : Memory) (p : ℕ) (bs : List ℕ)
    → ((b : ℕ) → m b < 256)
    → AreBytes bs
    → (b : ℕ) → store_all m p bs b < 256
store_all_bytes m p [] h s b = h b
store_all_bytes m p (c ∷ cs) h (s, ss) b =
    store_all_bytes (store m p c) (p + 1) cs (λ a. ground (arith, h a)) ss b

pub mask-lt : (v : ℕ) → bit_and v 0xff < 256
mask-lt v = omega (arith, bit_and-mask 8 v)

pub ip_bytes-AreBytes : (h : IpHead) → FitsIp h → AreBytes (ip_bytes h)
ip_bytes-AreBytes h fits = (
  fits.version_length,
  (
    fits.dscp_ecn,
    (
      mask-lt _,
      (
        mask-lt _,
        (
          mask-lt _,
          (
            mask-lt _,
            (
              mask-lt _,
              (
                mask-lt _,
                (
                  fits.ttl,
                  (
                    fits.protocol,
                    (
                      mask-lt _,
                      (
                        mask-lt _,
                        (
                          mask-lt _,
                          (
                            mask-lt _,
                            (
                              mask-lt _,
                              (mask-lt _, (mask-lt _, (mask-lt _, (mask-lt _, (mask-lt _, tt))))),
                            ),
                          ),
                        ),
                      ),
                    ),
                  ),
                ),
              ),
            ),
          ),
        ),
      ),
    ),
  ),
)

-- Putting the checksum of a buffer into its word number `k`, at `q`, which was 0.
pub filled_checksum :
    (m : Memory) (buffer n k q s : ℕ)
    → q ≡ buffer + 2 * k
    → ((b : ℕ) → m b < 256)
    → n < 2 ^ 16
    → 2 * k + 1 < n
    → (m q ≡ 0) × (m (q + 1) ≡ 0)
    → s < 2 ^ 16
    → proto_checksum m buffer n ≡ some s
    → proto_checksum (store_all m q (put_two s)) buffer n ≡ some 0
filled_checksum m buffer n k q s place bytes short inside (z0, z1) small computed =
    let m' = store_all m q (put_two s) in
    let w0 : m' q ≡ bit_and (shr s 8) 0xff = ground arith in
    let w1 : m' (q + 1) ≡ bit_and s 0xff = ground arith in
    let next : buffer + 2 * k + 1 ≡ q + 1 = omega arith in
    let small_bytes = store_all_bytes m q (put_two s) bytes (mask-lt (shr s 8), (mask-lt s, tt)) in
    proto_checksum_verifies m m' buffer n k s bytes small_bytes short inside
      (ap m (sym place) ∙ z0, ap m next ∙ z1) computed
      (
        ap m' (sym place) ∙ omega (arith, w0, bit_and-mask 8 (shr s 8)),
        ap m' next ∙ omega (arith, w1, bit_and-mask 8 s),
      )
      (λ b out. store_all_outside m q (put_two s) b (omega arith))

-- The header with its checksum is stored as a whole.
filled_whole :
    (h : IpHead) (m : Memory) (packet s a : ℕ)
    → store_all (store_all m packet (ip_bytes h)) (packet + 10) (put_two s) a
      ≡ store_all m packet (ip_bytes (record h { header_checksum = s })) a
filled_whole h m packet s a =
    store_all-over m packet (packet + 10)
      (h.version_length ∷ h.dscp_ecn ∷ put_two h.total_length
        ++ put_two h.identification
        ++ put_two h.flags_frag_offset
        ++ h.ttl ∷ h.protocol ∷ [])
      (put_four h.src_addr ++ put_four h.dst_addr) _ _ _ _ a (omega arith)

ip_mangle-fills :
    (h : IpHead) (m : Memory) (packet s : ℕ)
    → h.header_checksum ≡ 0
    → proto_checksum (store_all m packet (ip_bytes h)) packet (header_length h) ≡ some s
    → ip_mangle h m packet
      ≡ some (
        record h { header_checksum = s },
        store_all (store_all m packet (ip_bytes h)) (packet + 10) (put_two s),
      )
unfolding ip_mangle
ip_mangle-fills h m packet s unset computed =
    let own : (h.header_checksum == 0) ≡ true = ground arith in
    rw own (ap (with_checksum h (store_all m packet (ip_bytes h)) packet) computed)

-- A header that proto_ip_mangle stores with the checksum 0 gets its checksum, in memory and in the caller's
-- structure: proto_ip_demangle reads it back with its checksum, no byte but its 20 changes, and it verifies:
-- proto_checksum of the header that was written is 0, whatever stands in its options. The fields fit their
-- widths and the header length is 12 bytes or more.
pub ip_mangle_verifies :
    (h : IpHead) (m : Memory) (packet : ℕ)
    → FitsIp h
    → ((b : ℕ) → m b < 256)
    → h.header_checksum ≡ 0
    → 12 ≤ header_length h
    → (csum : ℕ) × (m' : Memory) × (ip_mangle h m packet
        ≡ some (record h { header_checksum = csum }, m'))
      × (ip_demangle m' packet ≡ record h { header_checksum = csum })
      × (proto_checksum m' packet (header_length h) ≡ some 0)
      × ((b : ℕ) → m' b < 256)
      × ((a : ℕ) → (a < packet) ⊎ (packet + 20 ≤ a) → m' a ≡ m a)
ip_mangle_verifies h m packet fits bytes unset long =
    let bs = ip_bytes h in
    let stored = store_all m packet bs in
    let n = header_length h in
    let short : n < 2 ^ 16 = omega (arith, bit_and-mask 4 h.version_length) in
    let stored_bytes = store_all_bytes m packet bs bytes (ip_bytes-AreBytes h fits) in
    let (r, computed, folded) = proto_checksum_lem stored packet n stored_bytes short in
    let s = 65535 - r in
    let low : bit_and h.header_checksum 0xff ≡ 0 =
      omega (arith, bit_and-mask 8 h.header_checksum) in
    let high : bit_and (shr h.header_checksum 8) 0xff ≡ 0 =
      omega (arith, bit_and-mask 8 (shr h.header_checksum 8)) in
    let z0 : stored (packet + 10) ≡ 0 = store_all_inside m packet bs 10 (omega arith) ∙ high in
    let z1 : stored (packet + 11) ≡ 0 = store_all_inside m packet bs 11 (omega arith) ∙ low in
    let filled : IpHead = record h { header_checksum = s } in
    let fits' : FitsIp filled = record {
      version_length = fits.version_length;
      dscp_ecn = fits.dscp_ecn;
      total_length = fits.total_length;
      identification = fits.identification;
      flags_frag_offset = fits.flags_frag_offset;
      ttl = fits.ttl;
      protocol = fits.protocol;
      header_checksum = omega arith;
      src_addr = fits.src_addr;
      dst_addr = fits.dst_addr;
    } in
    (
      s,
      store_all stored (packet + 10) (put_two s),
      ip_mangle-fills h m packet s unset computed,
      ap (λ (x : Memory). ip_demangle x packet) (λ i a. filled_whole h m packet s a i)
          ∙ ip_stored_back filled m packet fits',
      filled_checksum stored packet n 5 (packet + 10) s refl stored_bytes short (omega arith)
          (z0, ap stored (omega arith) ∙ z1) (omega arith) computed,
      store_all_bytes stored (packet + 10) (put_two s) stored_bytes (mask-lt _, (mask-lt _, tt)),
      λ a out. filled_whole h m packet s a ∙ store_all_outside m packet (ip_bytes filled) a out,
    )
