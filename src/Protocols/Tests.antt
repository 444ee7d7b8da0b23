-- ===== src/Protocols/Tests.antt =====
-- The packet headers on concrete packets.
use rflpc.Base.{ℕ, ◌%◌, ◌-◌, ◌<◌, ◌≤◌, ◌≡◌, refl, ◌⊎◌, leb, if◌then◌else◌, some, arith}
use rflpc.Base.Memory.{Memory}
use rflpc.Protocols.Fields.{EthAddr}
use rflpc.Protocols.Headers.{EthHead, ArpHead, IcmpHead, UdpHead}
use rflpc.Protocols.Checksum.{proto_checksum}
use rflpc.Protocols.Ip.{IpHead, header_length, ip_demangle, ip_mangle}
use rflpc.Protocols.IpBack.{ip_mangle_verifies}
use rflpc.Protocols.Carries.{IsFolded}
use rflpc.Protocols.Verify.{word_sum, proto_checksum_lem}

abbrev ramp : Memory
ramp a = a % 256

abbrev blank : Memory
blank a = 0

abbrev ones : Memory
ones a = if leb a 1 then 0xff else 0

ramp-small : (b : ℕ) → ramp b < 256
ramp-small b = omega arith

abbrev board : EthAddr
board = record { addr0 = 2; addr1 = 3; addr2 = 4; addr3 = 5; addr4 = 6; addr5 = 7 }

abbrev frame : EthHead
frame = record { src = board; dst = board; type = 0x0806 }

abbrev request : ArpHead
request = record {
  hard_type = 1;
  protocol_type = 0x0800;
  hlen = 6;
  plen = 4;
  opcode = 1;
  sender_mac = board;
  sender_ip = 0xc0a80001;
  target_mac = board;
  target_ip = 0xc0a80002;
}

abbrev datagram : UdpHead
datagram = record { src_port = 68; dst_port = 67; len = 308; checksum = 0xbeef }

abbrev ping : IcmpHead
ping = record { type = 8; code = 0; checksum = 0x1234; raw = 0x00020001 }

abbrev unset : IpHead
unset = record {
  version_length = 0x45;
  dscp_ecn = 0;
  total_length = 84;
  identification = 7;
  flags_frag_offset = 0x4000;
  ttl = 64;
  protocol = 1;
  header_checksum = 0;
  src_addr = 0xc0a80001;
  dst_addr = 0xc0a80002;
}

abbrev given : IpHead
given = record unset { header_checksum = 0xb94c }

header_length-unset : header_length unset ≡ 20
header_length-unset = refl

ip_mangle_verifies_example :
    (csum : ℕ) × (m' : Memory) × (ip_mangle unset ramp 100
      ≡ some (record unset { header_checksum = csum }, m'))
    × (ip_demangle m' 100 ≡ record unset { header_checksum = csum })
    × (proto_checksum m' 100 (header_length unset) ≡ some 0)
    × ((b : ℕ) → m' b < 256)
    × ((a : ℕ) → (a < 100) ⊎ (120 ≤ a) → m' a ≡ ramp a)
ip_mangle_verifies_example =
    ip_mangle_verifies unset ramp 100 (omega arith) ramp-small refl
      (omega (arith, header_length-unset))

proto_checksum_lem_example :
    (r : ℕ) × (proto_checksum ramp 100 21 ≡ some (65535 - r)) × IsFolded (word_sum 21 ramp 100) r
proto_checksum_lem_example = proto_checksum_lem ramp 100 21 ramp-small (omega arith)
