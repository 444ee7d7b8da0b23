-- ===== src/Responder/Tests.antt =====
-- process_packet on concrete frames.
use rflpc.Base.{ℕ, ◌+◌, ◌-◌, ◌*◌, ◌%◌, List, [], ◌∷◌, get_or, some, ◌≡◌, refl, arith}
use rflpc.Base.Memory.{Memory}
use rflpc.Protocols.Fields.{EthAddr, get_two, get_four}
use rflpc.Protocols.Headers.{eth_demangle, arp_demangle}
use rflpc.Ethernet.{tx_produce_index_inc}
use rflpc.Ethernet.Tests.{rings}
use rflpc.Ethernet.Transmit.{tx_pending}
use rflpc.SimpleNet.{Sender}
use rflpc.Responder.{proto_arp, my_ip, process_packet}
use rflpc.Responder.Arp.{process_packet-answers_arp}

abbrev mac_addr : EthAddr
mac_addr = record { addr0 = 2; addr1 = 3; addr2 = 4; addr3 = 5; addr4 = 6; addr5 = 7 }

-- A memory with a frame at 0x1000, and a sender whose descriptor for the next frame gives 0x3000.
abbrev holds : List ℕ → Memory
holds frame a = get_or frame (a - 0x1000) 0 % 256

abbrev station : List ℕ → Sender
station frame = record {
  emac = rings;
  tx_desc = λ i. record { packet = 0x3000 + i * 2048; control = 0 };
  memory = holds frame;
}

abbrev arp_request : List ℕ
arp_request =
    255 ∷ 255 ∷ 255 ∷ 255 ∷ 255 ∷ 255 ∷ 0 ∷ 17 ∷ 34 ∷ 51 ∷ 68 ∷ 85 ∷ 8 ∷ 6 ∷ 0 ∷ 1 ∷ 8 ∷ 0 ∷ 6 ∷ 4
    ∷ 0 ∷ 1 ∷ 0 ∷ 17 ∷ 34 ∷ 51 ∷ 68 ∷ 85 ∷ 192 ∷ 168 ∷ 100 ∷ 1 ∷ 0 ∷ 0 ∷ 0 ∷ 0 ∷ 0 ∷ 0 ∷ 192 ∷ 168
    ∷ 100 ∷ 200 ∷ []

process_packet-answers_arp_example :
    (n' : Sender) × (process_packet mac_addr 0x1000 (station arp_request) ≡ some n')
    × (tx_pending n'.emac ≡ tx_pending rings + 1)
    × (eth_demangle n'.memory ((station arp_request).tx_desc (tx_produce_index_inc rings 0)).packet
        ≡ record {
          dst = (eth_demangle (holds arp_request) 0x1000).src;
          src = mac_addr;
          type = proto_arp;
        })
    × (arp_demangle n'.memory
          (((station arp_request).tx_desc (tx_produce_index_inc rings 0)).packet + 14)
        ≡ record {
          hard_type = 1;
          protocol_type = 0x0800;
          hlen = 6;
          plen = 4;
          opcode = 2;
          sender_mac = mac_addr;
          sender_ip = my_ip;
          target_mac = (arp_demangle (holds arp_request) (0x1000 + 14)).sender_mac;
          target_ip = (arp_demangle (holds arp_request) (0x1000 + 14)).sender_ip;
        })
unfolding eth_demangle arp_demangle get_two get_four
process_packet-answers_arp_example =
    process_packet-answers_arp mac_addr 0x1000 (station arp_request) (λ a. omega arith)
      (omega arith) (omega arith) refl refl

abbrev ping : List ℕ
ping =
    2 ∷ 3 ∷ 4 ∷ 5 ∷ 6 ∷ 7 ∷ 0 ∷ 17 ∷ 34 ∷ 51 ∷ 68 ∷ 85 ∷ 8 ∷ 0 ∷ 0x45 ∷ 0 ∷ 0 ∷ 32 ∷ 0 ∷ 1 ∷ 0 ∷ 0
    ∷ 64 ∷ 1 ∷ 0 ∷ 0 ∷ 192 ∷ 168 ∷ 100 ∷ 1 ∷ 192 ∷ 168 ∷ 100 ∷ 200 ∷ 8 ∷ 0 ∷ 0 ∷ 0 ∷ 0 ∷ 1 ∷ 0 ∷ 2
    ∷ 97 ∷ 98 ∷ 99 ∷ 100 ∷ []
