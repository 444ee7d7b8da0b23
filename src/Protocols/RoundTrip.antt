-- ===== src/Protocols/RoundTrip.antt =====
-- The headers of samples/dhcp/protocols.c: what is mangled is demangled again.
use rflpc.Base.{
  ℕ, ◌+◌, ◌^◌, ◌<◌, ◌≤◌, ◌≡◌, refl, ◌∙◌, ◌⊎◌, bit_and, List, [], ◌∷◌, ◌++◌, get_or, length, arith,
}
use rflpc.Base.Word.{shr}
use rflpc.Base.Memory.{Memory, store_all, store_all_inside, store_all_outside}
use rflpc.Protocols.Fields.{
  EthAddr, get_two, get_four, get_mac, put_two, put_four, put_mac, two_back, four_back,
}
use rflpc.Protocols.Headers.{
  EthHead, ArpHead, UdpHead, eth_demangle, eth_mangle, arp_demangle, arp_mangle, udp_demangle,
  udp_mangle,
}

module _ (m : Memory) (packet : ℕ) (bs : List ℕ) where
  -- A field at `idx` of the stored bytes.
  pub two_stored :
      (idx v : ℕ)
      → idx + 1 < length bs
      → v < 2 ^ 16
      → get_or bs idx 0 ≡ bit_and (shr v 8) 0xff
      → get_or bs (idx + 1) 0 ≡ bit_and v 0xff
      → get_two (store_all m packet bs) packet idx ≡ v
  two_stored idx v h small e0 e1 =
      two_back (store_all m packet bs) packet idx v small
        (store_all_inside m packet bs idx (omega arith) ∙ e0)
        (store_all_inside m packet bs (idx + 1) h ∙ e1)

  pub four_stored :
      (idx v : ℕ)
      → idx + 3 < length bs
      → v < 2 ^ 32
      → get_or bs idx 0 ≡ bit_and (shr v 24) 0xff
      → get_or bs (idx + 1) 0 ≡ bit_and (shr v 16) 0xff
      → get_or bs (idx + 2) 0 ≡ bit_and (shr v 8) 0xff
      → get_or bs (idx + 3) 0 ≡ bit_and v 0xff
      → get_four (store_all m packet bs) packet idx ≡ v
  four_stored idx v h small e0 e1 e2 e3 =
      four_back (store_all m packet bs) packet idx v small
        (store_all_inside m packet bs idx (omega arith) ∙ e0)
        (store_all_inside m packet bs (idx + 1) (omega arith) ∙ e1)
        (store_all_inside m packet bs (idx + 2) (omega arith) ∙ e2)
        (store_all_inside m packet bs (idx + 3) h ∙ e3)

  pub mac_stored :
      (idx : ℕ) (a : EthAddr)
      → idx + 5 < length bs
      → get_or bs idx 0 ≡ a.addr0
      → get_or bs (idx + 1) 0 ≡ a.addr1
      → get_or bs (idx + 2) 0 ≡ a.addr2
      → get_or bs (idx + 3) 0 ≡ a.addr3
      → get_or bs (idx + 4) 0 ≡ a.addr4
      → get_or bs (idx + 5) 0 ≡ a.addr5
      → get_mac (store_all m packet bs) packet idx ≡ a
  unfolding get_mac
  mac_stored idx a h e0 e1 e2 e3 e4 e5 =
      let at : (k : ℕ)
          → idx + k < length bs
          → store_all m packet bs (packet + (idx + k)) ≡ get_or bs (idx + k) 0 =
        λ k p. store_all_inside m packet bs (idx + k) p in
      λ i. record {
        addr0 = (store_all_inside m packet bs idx (omega arith) ∙ e0) i;
        addr1 = (at 1 (omega arith) ∙ e1) i;
        addr2 = (at 2 (omega arith) ∙ e2) i;
        addr3 = (at 3 (omega arith) ∙ e3) i;
        addr4 = (at 4 (omega arith) ∙ e4) i;
        addr5 = (at 5 h ∙ e5) i;
      }

-- What proto_udp_mangle stores (fields of 16 bits) proto_udp_demangle reads back, and no other byte of
-- memory changes than the eight of the header.
pub udp_back :
    (h : UdpHead) (m : Memory) (packet : ℕ)
    → (h.src_port < 2 ^ 16) × (h.dst_port < 2 ^ 16) × (h.len < 2 ^ 16) × (h.checksum < 2 ^ 16)
    → (udp_demangle (udp_mangle h m packet) packet ≡ h)
      × ((a : ℕ) → (a < packet) ⊎ (packet + 8 ≤ a) → udp_mangle h m packet a ≡ m a)
unfolding udp_mangle udp_demangle
udp_back h m packet (p0, p1, p2, p3) =
    let bs = put_two h.src_port ++ put_two h.dst_port ++ put_two h.len ++ put_two h.checksum in
    (
      λ i. record {
        src_port = two_stored m packet bs 0 h.src_port (omega arith) p0 refl refl i;
        dst_port = two_stored m packet bs 2 h.dst_port (omega arith) p1 refl refl i;
        len = two_stored m packet bs 4 h.len (omega arith) p2 refl refl i;
        checksum = two_stored m packet bs 6 h.checksum (omega arith) p3 refl refl i;
      },
      λ a out. store_all_outside m packet bs a out,
    )

-- What proto_eth_mangle stores proto_eth_demangle reads back, for a type of 16 bits and whatever the
-- addresses are, and no other byte than the 14 of the header changes.
pub eth_back :
    (h : EthHead) (m : Memory) (packet : ℕ)
    → h.type < 2 ^ 16
    → (eth_demangle (eth_mangle h m packet) packet ≡ h)
      × ((a : ℕ) → (a < packet) ⊎ (packet + 14 ≤ a) → eth_mangle h m packet a ≡ m a)
unfolding eth_mangle eth_demangle
eth_back h m packet small =
    let bs = put_mac h.dst ++ put_mac h.src ++ put_two h.type in
    (
      λ i. record {
        dst = mac_stored m packet bs 0 h.dst (omega arith) refl refl refl refl refl refl i;
        src = mac_stored m packet bs 6 h.src (omega arith) refl refl refl refl refl refl i;
        type = two_stored m packet bs 12 h.type (omega arith) small refl refl i;
      },
      λ a out. store_all_outside m packet bs a out,
    )

-- The fields of an ARP header fit their widths.
pub record FitsArp (h : ArpHead) : Type 0 where
  pub hard_type : h.hard_type < 2 ^ 16
  pub protocol_type : h.protocol_type < 2 ^ 16
  pub opcode : h.opcode < 2 ^ 16
  pub sender_ip : h.sender_ip < 2 ^ 32
  pub target_ip : h.target_ip < 2 ^ 32

-- What proto_arp_mangle stores proto_arp_demangle reads back, if the fields fit their widths, and no
-- other byte than the 28 of the header changes.
pub arp_back :
    (h : ArpHead) (m : Memory) (packet : ℕ)
    → FitsArp h
    → (arp_demangle (arp_mangle h m packet) packet ≡ h)
      × ((a : ℕ) → (a < packet) ⊎ (packet + 28 ≤ a) → arp_mangle h m packet a ≡ m a)
unfolding arp_mangle arp_demangle
arp_back h m packet fits =
    let bs =
      put_two h.hard_type
      ++ put_two h.protocol_type
      ++ (h.hlen ∷ h.plen ∷ [])
      ++ put_two h.opcode
      ++ put_mac h.sender_mac
      ++ put_four h.sender_ip
      ++ put_mac h.target_mac
      ++ put_four h.target_ip in
    (
      λ i. record {
        hard_type = two_stored m packet bs 0 h.hard_type (omega arith) fits.hard_type refl refl i;
        protocol_type =
            two_stored m packet bs 2 h.protocol_type (omega arith) fits.protocol_type refl refl i;
        hlen = store_all_inside m packet bs 4 (omega arith) i;
        plen = store_all_inside m packet bs 5 (omega arith) i;
        opcode = two_stored m packet bs 6 h.opcode (omega arith) fits.opcode refl refl i;
        sender_mac =
            mac_stored m packet bs 8 h.sender_mac (omega arith) refl refl refl refl refl refl i;
        sender_ip =
            four_stored m packet bs 14 h.sender_ip (omega arith) fits.sender_ip refl refl refl refl
              i;
        target_mac =
            mac_stored m packet bs 18 h.target_mac (omega arith) refl refl refl refl refl refl i;
        target_ip =
            four_stored m packet bs 24 h.target_ip (omega arith) fits.target_ip refl refl refl refl
              i;
      },
      λ a out. store_all_outside m packet bs a out,
    )
