-- ===== src/Protocols/Headers.antt =====
-- samples/dhcp/protocols.c: the headers of Ethernet, ARP, ICMP and UDP.
use rflpc.Base.{ℕ, ◌+◌, ◌*◌, ◌/◌, ◌%◌, ◌^◌, ◌==◌, if◌then◌else◌, ◌||◌, Bool, [], ◌∷◌, ◌++◌}
use rflpc.Base.Memory.{Memory, store_all}
use rflpc.Protocols.Fields.{EthAddr, get_two, get_four, get_mac, put_two, put_four, put_mac}

-- `EthHead`
pub record EthHead : Type 0 where
  pub src : EthAddr
  pub dst : EthAddr
  pub type : ℕ

-- `ArpHead`
pub record ArpHead : Type 0 where
  pub hard_type : ℕ
  pub protocol_type : ℕ
  pub hlen : ℕ
  pub plen : ℕ
  pub opcode : ℕ
  pub sender_mac : EthAddr
  pub sender_ip : ℕ
  pub target_mac : EthAddr
  pub target_ip : ℕ

-- `IcmpHead`: `raw` is the union's word of 32 bits.
pub record IcmpHead : Type 0 where
  pub type : ℕ
  pub code : ℕ
  pub checksum : ℕ
  pub raw : ℕ

-- The union's other view: `identifier` is the lower half of the word and `sn` the upper one.
abbrev pub identifier : IcmpHead → ℕ
identifier h = h.raw % 2 ^ 16

abbrev pub sn : IcmpHead → ℕ
sn h = h.raw / 2 ^ 16

-- `UdpHead`
pub record UdpHead : Type 0 where
  pub src_port : ℕ
  pub dst_port : ℕ
  pub len : ℕ
  pub checksum : ℕ

-- `proto_eth_demangle`
unfoldable pub eth_demangle : Memory → ℕ → EthHead
eth_demangle m packet = record {
  dst = get_mac m packet 0;
  src = get_mac m packet 6;
  type = get_two m packet 12;
}

-- `proto_eth_mangle`
unfoldable pub eth_mangle : EthHead → Memory → ℕ → Memory
eth_mangle h m packet = store_all m packet (put_mac h.dst ++ put_mac h.src ++ put_two h.type)

-- `proto_arp_demangle`
unfoldable pub arp_demangle : Memory → ℕ → ArpHead
arp_demangle m packet = record {
  hard_type = get_two m packet 0;
  protocol_type = get_two m packet 2;
  hlen = m (packet + 4);
  plen = m (packet + 5);
  opcode = get_two m packet 6;
  sender_mac = get_mac m packet 8;
  sender_ip = get_four m packet 14;
  target_mac = get_mac m packet 18;
  target_ip = get_four m packet 24;
}

-- `proto_arp_mangle`
unfoldable pub arp_mangle : ArpHead → Memory → ℕ → Memory
arp_mangle h m packet = store_all m packet (
    put_two h.hard_type
    ++ put_two h.protocol_type
    ++ (h.hlen ∷ h.plen ∷ [])
    ++ put_two h.opcode
    ++ put_mac h.sender_mac
    ++ put_four h.sender_ip
    ++ put_mac h.target_mac
    ++ put_four h.target_ip)

-- `ih->type == PROTO_ICMP_ECHO_REQUEST || ih->type == PROTO_ICMP_ECHO_REPLY`
abbrev pub is_echo : ℕ → Bool
is_echo type = type == 8 || type == 0

-- `proto_icmp_demangle`
unfoldable pub icmp_demangle : Memory → ℕ → IcmpHead
icmp_demangle m packet =
    let type = m (packet + 0) in
    record {
      type = type;
      code = m (packet + 1);
      checksum = get_two m packet 2;
      raw =
          (if is_echo type
            then get_two m packet 4 + get_two m packet 6 * 2 ^ 16
            else get_four m packet 4);
    }

-- `proto_icmp_mangle`
unfoldable pub icmp_mangle : IcmpHead → Memory → ℕ → Memory
icmp_mangle h m packet =
    let front = h.type ∷ h.code ∷ put_two h.checksum in
    if is_echo h.type
    then store_all m packet (front ++ put_two (identifier h) ++ put_two (sn h))
    else store_all m packet (front ++ put_four h.raw)

-- `proto_udp_demangle`
unfoldable pub udp_demangle : Memory → ℕ → UdpHead
udp_demangle m packet = record {
  src_port = get_two m packet 0;
  dst_port = get_two m packet 2;
  len = get_two m packet 4;
  checksum = get_two m packet 6;
}

-- `proto_udp_mangle`
unfoldable pub udp_mangle : UdpHead → Memory → ℕ → Memory
udp_mangle h m packet =
    store_all m packet
      (put_two h.src_port ++ put_two h.dst_port ++ put_two h.len ++ put_two h.checksum)
