-- ===== src/Responder.antt =====
-- samples/ethernet/main.c: process_packet, which answers ARP requests and ICMP echo requests. Its
-- protocols.c is that of the DHCP sample without UDP; `checksum` is proto_checksum.
pub mod Requests
pub mod Arp
pub mod Echo
pub mod Frame
pub mod Ping
mod Tests
use rflpc.Base.{
  ℕ, ◌+◌, ◌-◌, ◌*◌, ◌^◌, ◌==◌, if◌then◌else◌, not, bit_and, bit_or, List, [], ◌∷◌, Option, some,
  none, ◌>>=◌,
}
use rflpc.Base.Word.{u32, shl, shr}
use rflpc.Base.Memory.{Memory, store_all}
use rflpc.Tinylibc.Memcpy.{memcpy}
use rflpc.Protocols.Fields.{EthAddr}
use rflpc.Protocols.Headers.{
  EthHead, ArpHead, IcmpHead, eth_demangle, eth_mangle, arp_demangle, arp_mangle, icmp_demangle,
  icmp_mangle,
}
use rflpc.Protocols.Ip.{IpHead, ip_demangle, ip_mangle, header_length}
use rflpc.Protocols.Checksum.{proto_checksum}
use rflpc.Ethernet.{tx_full, tx_produce_index_inc, done_process_tx_packet}
use rflpc.SimpleNet.{Descriptor, Sender, with_descriptor}

-- `PROTO_ARP`, `PROTO_IP`, `PROTO_ICMP`, `PROTO_MAC_HLEN`, `PROTO_ARP_HLEN`, `PROTO_ICMP_HLEN`
abbrev pub proto_arp : ℕ
proto_arp = 0x0806

abbrev pub proto_ip : ℕ
proto_ip = 0x0800

abbrev pub proto_icmp : ℕ
proto_icmp = 1

abbrev pub proto_mac_hlen : ℕ
proto_mac_hlen = 14

abbrev pub proto_arp_hlen : ℕ
proto_arp_hlen = 28

abbrev pub proto_icmp_hlen : ℕ
proto_icmp_hlen = 8

-- `my_ip`: 192.168.100.200
abbrev pub my_ip : ℕ
my_ip = 0xC0A864C8

-- The control word: `size | (1 << 18) | (1 << 29) | (1 << 30)`
abbrev pub reply_control : ℕ → ℕ
reply_control size = bit_or (bit_or (bit_or size (shl 1 18)) (shl 1 29)) (shl 1 30)

-- The frame is handed over with its control word.
unfoldable pub send : ℕ → Memory → Sender → Sender
send size memory n =
    let i = tx_produce_index_inc n.emac 0 in
    record {
      emac = done_process_tx_packet 1 n.emac;
      tx_desc = with_descriptor n.tx_desc i (record (n.tx_desc i) { control = reply_control size });
      memory = memory;
    }

abbrev pub ip_reply : IpHead → IpHead
ip_reply ip = record ip { header_checksum = 0; src_addr = ip.dst_addr; dst_addr = ip.src_addr }

abbrev pub icmp_reply : IcmpHead → IcmpHead
icmp_reply icmp = record icmp { type = 0; checksum = 0 }

-- `ip.total_length - ((ip.version_length&0xf)<<2)`, and the same less PROTO_ICMP_HLEN, as unsigned numbers.
abbrev pub icmp_length : IpHead → ℕ
icmp_length ip = u32 (ip.total_length + 2 ^ 32 - header_length ip)

abbrev pub icmp_data_length : IpHead → ℕ
icmp_data_length ip = u32 (ip.total_length + 2 ^ 32 - header_length ip - proto_icmp_hlen)

abbrev pub sent : ℕ → Sender → Option Memory → Option Sender
unfolding send
sent size n none = none
sent size n (some m) = some (send size m n)

module _ (mac_addr : EthAddr) where
  abbrev pub eth_reply : EthHead → EthHead
  eth_reply eth = record { src = mac_addr; dst = eth.src; type = eth.type }

  abbrev pub arp_reply : ArpHead → ArpHead
  arp_reply rcv = record {
    hard_type = 1;
    protocol_type = proto_ip;
    hlen = 6;
    plen = 4;
    opcode = 2;
    sender_mac = mac_addr;
    sender_ip = rcv.target_ip;
    target_mac = rcv.sender_mac;
    target_ip = rcv.sender_ip;
  }

  -- The branch of ARP.
  unfoldable pub process_arp : EthHead → ℕ → Sender → Sender
  unfolding send
  process_arp eth rx n =
      let rcv = arp_demangle n.memory (rx + proto_mac_hlen) in
      let tx = (n.tx_desc (tx_produce_index_inc n.emac 0)).packet in
      let framed = eth_mangle (eth_reply eth) n.memory tx in
      if not (rcv.target_ip == my_ip)
      then n
      else if tx_full n.emac 0
      then n
      else send (proto_mac_hlen + proto_arp_hlen)
          (arp_mangle (arp_reply rcv) framed (tx + proto_mac_hlen)) n

  -- The frame of the reply, in the transmit buffer at `tx`.
  unfoldable pub echo_frame : EthHead → IpHead → IcmpHead → ℕ → ℕ → Memory → Option Memory
  echo_frame eth ip icmp rx tx m = do
    let icmp_start = proto_mac_hlen + header_length ip
    (filled, headed) ←
        ip_mangle (ip_reply ip) (eth_mangle (eth_reply eth) m tx) (tx + proto_mac_hlen)
    let answered = icmp_mangle (icmp_reply icmp) headed (tx + icmp_start)
    let copied =
        memcpy (tx + icmp_start + proto_icmp_hlen) (rx + icmp_start + proto_icmp_hlen)
          (icmp_data_length ip) answered
    csum ← proto_checksum copied (tx + icmp_start) (icmp_length ip)
    some (
        store_all copied (tx + icmp_start + 2) (bit_and (shr csum 8) 0xFF ∷ bit_and csum 0xFF ∷ []))

  -- The branch of IP. There is no result while the carries of a checksum are still added.
  unfoldable pub process_ip : EthHead → ℕ → Sender → Option Sender
  unfolding echo_frame
  process_ip eth rx n =
      let ip = ip_demangle n.memory (rx + proto_mac_hlen) in
      let icmp = icmp_demangle n.memory (rx + proto_mac_hlen + header_length ip) in
      let tx = (n.tx_desc (tx_produce_index_inc n.emac 0)).packet in
      let frame = echo_frame eth ip icmp rx tx n.memory in
      if not (ip.dst_addr == my_ip)
      then some n
      else if not (ip.protocol == proto_icmp)
      then some n
      else if not (icmp.type == 8)
      then some n
      else if tx_full n.emac 0
      then some n
      else sent (proto_mac_hlen + ip.total_length) n frame

  -- `process_packet` for the frame in the buffer at `rx`
  unfoldable pub process_packet : ℕ → Sender → Option Sender
  unfolding process_arp process_ip
  process_packet rx n =
      let eth = eth_demangle n.memory rx in
      if eth.type == proto_arp
      then some (process_arp eth rx n)
      else if eth.type == proto_ip
      then process_ip eth rx n
      else some n
