-- ===== src/SimpleUdp/Headers.antt =====
-- The fields of samples/simple_udp/protocol.c are those of samples/dhcp/protocols.c.
use rflpc.Base.{
  ℕ, ◌+◌, ◌-◌, ◌^◌, ◌<◌, ◌≤◌, bit_and, List, [], ◌∷◌, Option, some, none, ◌>>=◌, ◌≡◌, refl, ap, sym,
  ◌∙◌, ◌⊎◌, inl, inr, arith,
}
use rflpc.Base.Bits.{bit_and-mask, bit_or-lt}
use rflpc.Base.Word.{u8, u16, u32, shl, shr}
use rflpc.Base.Memory.{Memory, store_all, store_all_inside, store_all_outside}
use rflpc.Tinylibc.Memcpy.{memcpy}
use rflpc.Tinylibc.Memcpy.Step.{copied, AreDisjoint}
use rflpc.Tinylibc.Memcpy.Copies.{memcpy_copies}
use rflpc.Protocols.Fields.{get_mac, get_two, get_four, two_back}
use rflpc.Protocols.Headers.{eth_demangle, udp_mangle}
use rflpc.Protocols.Ip.{IpHead, ip_mangle, ip_bytes, with_checksum}
use rflpc.Protocols.Checksum.{proto_checksum}
use rflpc.Protocols.IpBack.{store_all_bytes, mask-lt}
use rflpc.Responder.Frame.{copied-bytes}
use rflpc.SimpleUdp.{
  two_at, ip4_get_addr, eth_get_src, eth_set_src, eth_set_dst, eth_set_type, ip4_header_bytes,
  ip4_set_header, udp_set_header, udp_start,
}

u8_mask : (v : ℕ) → u8 v ≡ bit_and v 0xff
u8_mask v = sym (bit_and-mask 8 v)

pub two_at-get :
    (m : Memory) (p i a : ℕ) → ((b : ℕ) → m b < 256) → a ≡ p + i → two_at m a ≡ get_two m p i
unfolding two_at get_two
two_at-get m p i a bytes e =
    let high : u16 (shl (m (p + i)) 8) ≡ shl (m (p + i)) 8 = omega (arith, bytes (p + i)) in
    let next : a + 1 ≡ p + (i + 1) = omega arith in
    rw (next, e, high)
      (omega (
        arith,
        bit_or-lt 16 (shl (m (p + i)) 8) (m (p + (i + 1))) (omega (arith, bytes (p + i)))
            (omega (arith, bytes (p + (i + 1)))),
      ))

pub ip4_get_addr-get :
    (m : Memory) (p o i : ℕ)
    → ((b : ℕ) → m b < 256)
    → o ≡ i + 14
    → ip4_get_addr m p o ≡ get_four m (p + 14) i
unfolding ip4_get_addr get_four
ip4_get_addr-get m p o i bytes e =
    let first = shl (m (p + 14 + i)) 24 in
    let a : p + o ≡ p + 14 + i = omega arith in
    let b : p + 14 + i + 1 ≡ p + 14 + (i + 1) = omega arith in
    let c : p + 14 + i + 2 ≡ p + 14 + (i + 2) = omega arith in
    let d : p + 14 + i + 3 ≡ p + 14 + (i + 3) = omega arith in
    let high : u32 first ≡ first = omega (arith, bytes (p + 14 + i)) in
    let second =
      bit_or-lt 32 first (shl (m (p + 14 + (i + 1))) 16) (omega (arith, bytes (p + 14 + i)))
        (omega (arith, bytes (p + 14 + (i + 1)))) in
    let third =
      bit_or-lt 32 _ (shl (m (p + 14 + (i + 2))) 8) second
        (omega (arith, bytes (p + 14 + (i + 2)))) in
    let whole =
      bit_or-lt 32 _ (m (p + 14 + (i + 3))) third (omega (arith, bytes (p + 14 + (i + 3)))) in
    rw (a, b, c, d, high) (omega (arith, whole))

-- The header that ip4_set_header stores.
abbrev pub header_of : ℕ → ℕ → ℕ → ℕ → ℕ → IpHead
header_of pid src dst payload_length protocol = record {
  version_length = 0x45;
  dscp_ecn = 0;
  total_length = u16 (payload_length + 20);
  identification = pid;
  flags_frag_offset = 0;
  ttl = 255;
  protocol = protocol;
  header_checksum = 0;
  src_addr = src;
  dst_addr = dst;
}

header_bytes_same :
    (pid src dst payload_length protocol : ℕ)
    → ip4_header_bytes pid src dst (u16 (payload_length + 20)) protocol
      ≡ ip_bytes (header_of pid src dst payload_length protocol)
unfolding ip4_header_bytes
header_bytes_same pid src dst payload_length protocol =
    rw (u8_mask (shr pid 8), u8_mask (shr (u16 (payload_length + 20)) 8)) refl

abbrev pub moved_on : ℕ → Option (IpHead × Memory) → Option (ℕ × Memory)
moved_on pid none = none
moved_on pid (some (h, m)) = some (u16 (pid + 1), m)

checksum_filled :
    (pid ptr : ℕ) (h : IpHead) (m : Memory) (o : Option ℕ)
    → (o >>= λ csum.
        some (u16 (pid + 1), store_all m (ptr + 10) (u8 (shr csum 8) ∷ bit_and csum 0xff ∷ [])))
      ≡ moved_on pid (with_checksum h m ptr o)
checksum_filled pid ptr h m none = refl
checksum_filled pid ptr h m (some csum) = rw (u8_mask (shr csum 8)) refl

-- ip4_set_header stores what proto_ip_mangle stores for the same header, and moves its counter on.
pub set_header-mangles :
    (pid buffer src dst payload_length protocol : ℕ) (m : Memory)
    → ip4_set_header pid buffer src dst payload_length protocol m
      ≡ moved_on pid (ip_mangle (header_of pid src dst payload_length protocol) m (buffer + 14))
unfolding ip4_set_header ip_mangle
set_header-mangles pid buffer src dst payload_length protocol m =
    let h = header_of pid src dst payload_length protocol in
    let ptr = buffer + 14 in
    ap
      (λ (bs : List ℕ). proto_checksum (store_all m ptr bs) ptr 20 >>= λ csum. some (
        u16 (pid + 1),
        store_all (store_all m ptr bs) (ptr + 10) (u8 (shr csum 8) ∷ bit_and csum 0xff ∷ []),
      ))
      (header_bytes_same pid src dst payload_length protocol)
    ∙ checksum_filled pid ptr h (store_all m ptr (ip_bytes h))
        (proto_checksum (store_all m ptr (ip_bytes h)) ptr 20)

pub udp_set_header-mangles :
    (buffer src_port dst_port payload_length : ℕ) (m : Memory)
    → udp_set_header buffer src_port dst_port payload_length m
      ≡ udp_mangle
          (record {
            src_port = src_port;
            dst_port = dst_port;
            len = payload_length + 8;
            checksum = 0;
          })
          m
          (udp_start m buffer)
unfolding udp_set_header udp_mangle
udp_set_header-mangles buffer src_port dst_port payload_length m =
    rw (u8_mask (shr src_port 8), u8_mask (shr dst_port 8), u8_mask (shr (payload_length + 8) 8))
      refl

copied_in : (m : Memory) (d s n j : ℕ) → j < n → copied m d s n (d + j) ≡ m (s + j)
copied_in m d s n j h = let at : s + (d + j - d) ≡ s + j = omega arith in ground (arith, ap m at)

copied_out : (m : Memory) (d s n a : ℕ) → (a < d) ⊎ (d + n ≤ a) → copied m d s n a ≡ m a
copied_out m d s n a h = ground arith

-- The bytes that the three setters leave: the two addresses from `mac` and from the frame at `rx`, and the type.
pub eth_fields :
    (mac rx tx type : ℕ) (m : Memory)
    → type < 2 ^ 16
    → AreDisjoint (tx + 6) mac 6
    → AreDisjoint tx rx 14
    → ((a : ℕ) → m a < 256)
    → let M = eth_set_type tx type (eth_set_dst tx (eth_get_src rx) (eth_set_src tx mac m)) in
      (eth_demangle M tx ≡ record { src = get_mac m mac 0; dst = get_mac m rx 6; type = type })
      × ((a : ℕ) → (a < tx) ⊎ (tx + 14 ≤ a) → M a ≡ m a)
      × ((a : ℕ) → M a < 256)
unfolding eth_set_type eth_set_dst eth_set_src eth_demangle get_mac
eth_fields mac rx tx type m small apart_mac apart bytes =
    let m₁ = memcpy (tx + 6) mac 6 m in
    let m₂ = memcpy tx (rx + 6) 6 m₁ in
    let bs = u8 (shr type 8) ∷ bit_and type 0xff ∷ [] in
    let M = store_all m₂ (tx + 12) bs in
    let c₁ : (a : ℕ) → m₁ a ≡ copied m (tx + 6) mac 6 a =
      memcpy_copies (tx + 6) mac 6 m (omega arith) apart_mac (inl (omega arith)) in
    let c₂ : (a : ℕ) → m₂ a ≡ copied m₁ tx (rx + 6) 6 a =
      memcpy_copies tx (rx + 6) 6 m₁ (omega arith) (ground arith) (inl (omega arith)) in
    let out : (a : ℕ) → (a < tx + 12) ⊎ (tx + 12 + 2 ≤ a) → M a ≡ m₂ a =
      λ a h. store_all_outside m₂ (tx + 12) bs a h in
    let dst : (j : ℕ) → j < 6 → M (tx + j) ≡ m (rx + (6 + j)) = λ j h.
      out (tx + j) (inl (omega arith))
      ∙ c₂ (tx + j)
      ∙ copied_in m₁ tx (rx + 6) 6 j h
      ∙ c₁ (rx + 6 + j)
      ∙ copied_out m (tx + 6) mac 6 (rx + 6 + j) (ground arith)
      ∙ ap m (omega arith) in
    let src : (j : ℕ) → j < 6 → M (tx + (6 + j)) ≡ m (mac + j) = λ j h.
      ap M {x = tx + (6 + j)} {y = tx + 6 + j} (omega arith)
      ∙ out (tx + 6 + j) (inl (omega arith))
      ∙ c₂ (tx + 6 + j)
      ∙ copied_out m₁ tx (rx + 6) 6 (tx + 6 + j) (inr (omega arith))
      ∙ c₁ (tx + 6 + j)
      ∙ copied_in m (tx + 6) mac 6 j h in
    (
      λ i. record {
        dst = record {
          addr0 = dst 0 (omega arith) i;
          addr1 = dst 1 (omega arith) i;
          addr2 = dst 2 (omega arith) i;
          addr3 = dst 3 (omega arith) i;
          addr4 = dst 4 (omega arith) i;
          addr5 = dst 5 (omega arith) i;
        };
        src = record {
          addr0 = src 0 (omega arith) i;
          addr1 = src 1 (omega arith) i;
          addr2 = src 2 (omega arith) i;
          addr3 = src 3 (omega arith) i;
          addr4 = src 4 (omega arith) i;
          addr5 = src 5 (omega arith) i;
        };
        type =
            two_back M tx 12 type small
              (ap M {x = tx + 12} {y = tx + 12 + 0} (omega arith)
                ∙ store_all_inside m₂ (tx + 12) bs 0 (omega arith)
                ∙ u8_mask (shr type 8))
              (ap M {x = tx + (12 + 1)} {y = tx + 12 + 1} (omega arith)
                ∙ store_all_inside m₂ (tx + 12) bs 1 (omega arith))
              i;
      },
      λ a h.
          out a (ground arith)
          ∙ c₂ a
          ∙ copied_out m₁ tx (rx + 6) 6 a (ground arith)
          ∙ c₁ a
          ∙ copied_out m (tx + 6) mac 6 a (ground arith),
      store_all_bytes m₂ (tx + 12) bs
          (λ a. rw (c₂ a) (
            copied-bytes m₁ tx (rx + 6) 6 a λ b. rw (c₁ b) (copied-bytes m (tx + 6) mac 6 b bytes)))
          (omega arith, (mask-lt _, tt)),
    )
