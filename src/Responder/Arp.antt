-- ===== src/Responder/Arp.antt =====
-- The answer to an ARP request.
use rflpc.Base.{ℕ, ◌+◌, ◌^◌, ◌<◌, ◌==◌, true, false, some, ◌≡◌, ◌≢◌, inl, refl, sym, ◌∙◌, arith}
use rflpc.Base.Memory.{Memory}
use rflpc.Protocols.Fields.{EthAddr}
use rflpc.Protocols.Headers.{eth_demangle, eth_mangle, arp_demangle, arp_mangle}
use rflpc.Protocols.RoundTrip.{FitsArp, arp_back, eth_back}
use rflpc.Ethernet.{tx_full, tx_produce_index_inc, done_process_tx_packet}
use rflpc.Ethernet.Transmit.{IsTxValid, tx_pending, tx_free, tx_full_iff_last, tx_done_hands_over}
use rflpc.SimpleNet.{Sender}
use rflpc.Responder.{proto_arp, my_ip, eth_reply, arp_reply, process_arp, process_packet, send}
use rflpc.Responder.Requests.{get_two-lt, get_four-lt, eth_demangle-same}

-- One free descriptor is taken.
pub send_one :
    (n : Sender)
    → IsTxValid n.emac
    → tx_free n.emac ≢ 0
    → (tx_full n.emac 0 ≡ false)
      × (tx_pending (done_process_tx_packet 1 n.emac) ≡ tx_pending n.emac + 1)
send_one n v free = (
  tx_full_iff_last n.emac 0 v (omega arith) ∙ ground arith,
  (tx_done_hands_over n.emac 1 v (omega arith) (omega arith)).1 ∙ ground arith,
)

arp_reply-Fits :
    (mac_addr : EthAddr) (m : Memory) (p : ℕ)
    → ((a : ℕ) → m a < 256)
    → FitsArp (arp_reply mac_addr (arp_demangle m p))
unfolding arp_demangle
arp_reply-Fits mac_addr m p bytes = record {
  hard_type = omega arith;
  protocol_type = omega arith;
  opcode = omega arith;
  sender_ip = get_four-lt m p 24 bytes;
  target_ip = get_four-lt m p 14 bytes;
}

pub eth_type-lt : (m : Memory) (p : ℕ) → ((a : ℕ) → m a < 256) → (eth_demangle m p).type < 2 ^ 16
unfolding eth_demangle
eth_type-lt m p bytes = get_two-lt m p 12 bytes

-- A frame of type ARP that asks for the sample's address is answered while a descriptor is free: one frame is
-- handed over. Its Ethernet header goes from the station's hardware address to the sender of the request, and its
-- ARP packet is a reply (opcode 2) for Ethernet and IP, sent by the station's hardware address and the address that
-- was asked for to the two addresses of the asking station. The indices stand inside the ring, and bytes are below
-- 256.
pub process_packet-answers_arp :
    (mac_addr : EthAddr) (rx : ℕ) (n : Sender)
    → ((a : ℕ) → n.memory a < 256)
    → IsTxValid n.emac
    → tx_free n.emac ≢ 0
    → (eth_demangle n.memory rx).type ≡ proto_arp
    → (arp_demangle n.memory (rx + 14)).target_ip ≡ my_ip
    → (n' : Sender) × (process_packet mac_addr rx n ≡ some n')
      × (tx_pending n'.emac ≡ tx_pending n.emac + 1)
      × (eth_demangle n'.memory (n.tx_desc (tx_produce_index_inc n.emac 0)).packet
          ≡ record { dst = (eth_demangle n.memory rx).src; src = mac_addr; type = proto_arp })
      × (arp_demangle n'.memory ((n.tx_desc (tx_produce_index_inc n.emac 0)).packet + 14) ≡ record {
        hard_type = 1;
        protocol_type = 0x0800;
        hlen = 6;
        plen = 4;
        opcode = 2;
        sender_mac = mac_addr;
        sender_ip = my_ip;
        target_mac = (arp_demangle n.memory (rx + 14)).sender_mac;
        target_ip = (arp_demangle n.memory (rx + 14)).sender_ip;
      })
unfolding process_packet process_arp send
process_packet-answers_arp mac_addr rx n bytes v free type asked =
    let eth = eth_demangle n.memory rx in
    let rcv = arp_demangle n.memory (rx + 14) in
    let tx = (n.tx_desc (tx_produce_index_inc n.emac 0)).packet in
    let framed = eth_mangle (eth_reply mac_addr eth) n.memory tx in
    let answered = arp_mangle (arp_reply mac_addr rcv) framed (tx + 14) in
    let (read_arp, outside) =
      arp_back (arp_reply mac_addr rcv) framed (tx + 14)
        (arp_reply-Fits mac_addr n.memory (rx + 14) bytes) in
    let is_arp : (eth.type == proto_arp) ≡ true = rw type refl in
    let is_mine : (rcv.target_ip == my_ip) ≡ true = rw asked refl in
    let (room, pending) = send_one n v free in
    (
      send 42 answered n,
      rw (is_arp, is_mine, room) refl,
      pending,
      sym (
            eth_demangle-same framed answered tx 14 (λ a lo hi. sym (outside a (inl hi)))
              (omega arith))
          ∙ (eth_back (eth_reply mac_addr eth) n.memory tx (eth_type-lt n.memory rx bytes)).0
          ∙ (λ i. record { dst = eth.src; src = mac_addr; type = type i }),
      read_arp ∙ (λ i. record {
        hard_type = 1;
        protocol_type = 0x0800;
        hlen = 6;
        plen = 4;
        opcode = 2;
        sender_mac = mac_addr;
        sender_ip = asked i;
        target_mac = rcv.sender_mac;
        target_ip = rcv.sender_ip;
      }),
    )
