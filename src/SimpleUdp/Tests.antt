-- ===== src/SimpleUdp/Tests.antt =====
-- A datagram from port 1000 of 192.168.100.9 to the sample's port.
use rflpc.Base.{ℕ, ◌+◌, ◌-◌, ◌*◌, ◌%◌, List, [], ◌∷◌, get_or, inr, some, ◌≡◌, refl, arith}
use rflpc.Base.Word.{u16}
use rflpc.Base.Memory.{Memory}
use rflpc.Protocols.Fields.{get_two, get_four}
use rflpc.Protocols.Headers.{eth_demangle, udp_demangle}
use rflpc.Protocols.Ip.{ip_demangle}
use rflpc.Ethernet.{tx_produce_index_inc}
use rflpc.Ethernet.Tests.{rings}
use rflpc.Ethernet.Transmit.{tx_pending}
use rflpc.SimpleUdp.{Station, udp_process_packet}
use rflpc.SimpleUdp.Reply.{IsDatagram, IsOk, udp_process_packet-answers}

-- The frame is at 0x1000, the hardware address at 0x2000, and the next frame's buffer at 0x3000 or behind it.
abbrev datagram : List ℕ
datagram =
    2 ∷ 3 ∷ 4 ∷ 5 ∷ 6 ∷ 7 ∷ 0 ∷ 17 ∷ 34 ∷ 51 ∷ 68 ∷ 85 ∷ 8 ∷ 0 ∷ 0x45 ∷ 0 ∷ 0 ∷ 29 ∷ 0 ∷ 1 ∷ 0 ∷ 0
    ∷ 64 ∷ 17 ∷ 0 ∷ 0 ∷ 192 ∷ 168 ∷ 100 ∷ 9 ∷ 192 ∷ 168 ∷ 100 ∷ 1 ∷ 3 ∷ 232 ∷ 237 ∷ 105 ∷ 0 ∷ 9 ∷ 0
    ∷ 0 ∷ 97 ∷ []

abbrev holds : Memory
holds a = get_or datagram (a - 0x1000) 0 % 256

abbrev station : Station
station = record {
  sender = record {
    emac = rings;
    tx_desc = λ i. record { packet = 0x3000 + i * 2048; control = 0 };
    memory = holds;
  };
  pid = 7;
}

is_datagram :
    IsDatagram holds 0x2000 0x1000 (station.sender.tx_desc (tx_produce_index_inc rings 0)).packet
unfolding ip_demangle eth_demangle udp_demangle get_two get_four tx_produce_index_inc
is_datagram = record {
  ethernet = refl;
  mine = refl;
  protocol = refl;
  port = refl;
  apart_mac = inr (omega arith);
  apart = inr (omega arith);
}

udp_process_packet-answers_example :
    (s' : Station) × (udp_process_packet 0x2000 0x1000 station ≡ some s')
    × (tx_pending s'.sender.emac ≡ tx_pending rings + 1)
    × (s'.pid ≡ u16 (7 + 1))
    × IsOk holds s'.sender.memory 0x2000 7 0x1000
        (station.sender.tx_desc (tx_produce_index_inc rings 0)).packet
udp_process_packet-answers_example =
    udp_process_packet-answers 0x2000 0x1000 station (λ a. omega arith) (omega arith) (omega arith)
      (omega arith) is_datagram
