-- ===== src/Responder/Ping.antt =====
-- process_packet for an ICMP echo request.
use rflpc.Base.{ℕ, ◌+◌, ◌≤◌, ◌≡◌}
use rflpc.Base.Memory.{Memory}
use rflpc.Tinylibc.Memcpy.Step.{AreDisjoint}
use rflpc.Protocols.Headers.{eth_demangle}
use rflpc.Protocols.Ip.{ip_demangle, header_length}
use rflpc.Responder.{proto_ip, proto_icmp, my_ip}

-- An echo request in the buffer at `rx` for the sample's address, whole and with four bytes of data or more,
-- which the transmit buffer at `tx` does not overlap.
pub record IsEchoRequest (m : Memory) (rx tx : ℕ) : Type 0 where
  pub ethernet : (eth_demangle m rx).type ≡ proto_ip
  pub mine : (ip_demangle m (rx + 14)).dst_addr ≡ my_ip
  pub protocol : (ip_demangle m (rx + 14)).protocol ≡ proto_icmp
  pub request : m (rx + (14 + header_length (ip_demangle m (rx + 14))) + 0) ≡ 8
  pub long : 20 ≤ header_length (ip_demangle m (rx + 14))
  pub whole : header_length (ip_demangle m (rx + 14)) + 12 ≤ (ip_demangle m (rx + 14)).total_length
  pub apart : AreDisjoint tx rx (14 + (ip_demangle m (rx + 14)).total_length)
