-- ===== src/Protocols/Ip.antt =====
-- samples/dhcp/protocols.c: the header of IPv4, into which its checksum is put.
use rflpc.Base.{ℕ, ◌+◌, ◌==◌, if◌then◌else◌, bit_and, List, [], ◌∷◌, ◌++◌, Option, some, none}
use rflpc.Base.Word.{shl}
use rflpc.Base.Memory.{Memory, store_all}
use rflpc.Protocols.Fields.{get_two, get_four, put_two, put_four}
use rflpc.Protocols.Checksum.{proto_checksum}

-- `IpHead`
pub record IpHead : Type 0 where
  pub version_length : ℕ
  pub dscp_ecn : ℕ
  pub total_length : ℕ
  pub identification : ℕ
  pub flags_frag_offset : ℕ
  pub ttl : ℕ
  pub protocol : ℕ
  pub header_checksum : ℕ
  pub src_addr : ℕ
  pub dst_addr : ℕ

-- `proto_ip_demangle`
unfoldable pub ip_demangle : Memory → ℕ → IpHead
ip_demangle m packet = record {
  version_length = m (packet + 0);
  dscp_ecn = m (packet + 1);
  total_length = get_two m packet 2;
  identification = get_two m packet 4;
  flags_frag_offset = get_two m packet 6;
  ttl = m (packet + 8);
  protocol = m (packet + 9);
  header_checksum = get_two m packet 10;
  src_addr = get_four m packet 12;
  dst_addr = get_four m packet 16;
}

-- The bytes that `proto_ip_mangle` stores first.
abbrev pub ip_bytes : IpHead → List ℕ
ip_bytes h =
    (h.version_length ∷ h.dscp_ecn ∷ [])
    ++ put_two h.total_length
    ++ put_two h.identification
    ++ put_two h.flags_frag_offset
    ++ (h.ttl ∷ h.protocol ∷ [])
    ++ put_two h.header_checksum
    ++ put_four h.src_addr
    ++ put_four h.dst_addr

-- `(ih->version_length & 0xF)<<2`
abbrev pub header_length : IpHead → ℕ
header_length h = shl (bit_and h.version_length 0xf) 2

abbrev pub with_checksum : IpHead → Memory → ℕ → Option ℕ → Option (IpHead × Memory)
with_checksum h m packet none = none
with_checksum h m packet (some csum) =
    some (record h { header_checksum = csum }, store_all m (packet + 10) (put_two csum))

-- `proto_ip_mangle`: the header and the memory afterwards.
unfoldable pub ip_mangle : IpHead → Memory → ℕ → Option (IpHead × Memory)
ip_mangle h m packet =
    let stored = store_all m packet (ip_bytes h) in
    if h.header_checksum == 0
    then with_checksum h stored packet (proto_checksum stored packet (header_length h))
    else some (h, stored)
