-- ===== src/SimpleNet/Tests.antt =====
-- The sample's network functions on a concrete ring.
use rflpc.Base.{ℕ, ◌+◌, ◌*◌, ◌<◌, List, [], ◌∷◌, ◌++◌, Option, some, ◌≡◌, inr, refl, arith}
use rflpc.Tinylibc.Memcpy.Step.{copied}
use rflpc.Base.Bits.{bit_at}
use rflpc.Base.Word.{set_bit}
use rflpc.Ethernet.{
  Emac, done_process_rx_packet, irq_get_status, get_packet_size, tx_produce_index_inc,
}
use rflpc.Ethernet.Tests.{rings}
use rflpc.Ethernet.Queue.{queue, next, replace, arrive}
use rflpc.Ethernet.Transmit.{tx_pending}
use rflpc.SimpleNet.{
  Net, Callback, called, serve_frame, eth_handler_with, rx_descriptor_of, Sender, emit_buffer,
}
use rflpc.SimpleNet.Handler.{KeepsRx, serve_all, eth_handler-misses}
use rflpc.SimpleNet.Buffers.{rx_buffers-Overlap, emit_buffer-sends}

-- Two frames wait; the callback keeps what it was given.
abbrev net : Net ℕ (List ℕ)
net = record { ring = record { emac = rings; frame = λ k. 100 + k }; world = [] }

abbrev collects : Option (Callback ℕ (List ℕ))
collects = some (λ frame e w. (e, w ++ frame ∷ []))

collects_keeps : (frame : ℕ) (e : Emac) (w : List ℕ) → KeepsRx e (called collects frame e w).0
collects_keeps frame e w = record { number = refl; produce = refl; consume = refl }

-- The frames reach the callback in the order in which they arrived.
served_in_order : (serve_all collects (queue net.ring) net).world ≡ 103 ∷ 100 ∷ []
unfolding serve_all serve_frame queue
served_in_order = refl

-- The frame 9 arrives late.
abbrev arrives : Net ℕ (List ℕ) → Net ℕ (List ℕ)
arrives n = record n {
  ring = record {
    emac = record n.ring.emac {
      rx_produce_index = next n.ring.emac.rx_descriptor_number n.ring.emac.rx_produce_index;
      int_status = set_bit n.ring.emac.int_status 3;
    };
    frame = replace n.ring.frame n.ring.emac.rx_produce_index 9;
  };
}

abbrev served : Net ℕ (List ℕ)
served = serve_all collects (queue net.ring) net

eth_handler-misses_example :
    (bit_at (arrives served).ring.emac.int_status 3 ≡ 1)
    × (n' : Net ℕ (List ℕ)) × (eth_handler_with arrives 3 collects net ≡ some n')
    × (queue n'.ring ≡ 9 ∷ [])
    × (irq_get_status n'.ring.emac ≡ 0)
unfolding serve_all serve_frame queue irq_get_status done_process_rx_packet set_bit
eth_handler-misses_example =
    eth_handler-misses collects collects_keeps arrives 3 net 9 (omega arith) (omega arith) refl
      (arrive 9 (omega arith) refl) (omega arith)

rx_buffers-Overlap_example :
    ((rx_descriptor_of 0x2007c000 7).packet ≡ (rx_descriptor_of 0x2007c000 0).packet + 8 * 7)
    × (get_packet_size (rx_descriptor_of 0x2007c000 0).control ≡ 1538)
    × ((rx_descriptor_of 0x2007c000 7).packet
        < (rx_descriptor_of 0x2007c000 0).packet
          + get_packet_size (rx_descriptor_of 0x2007c000 0).control)
rx_buffers-Overlap_example = rx_buffers-Overlap 0x2007c000 0 7 (omega arith) (omega arith)

abbrev sender : Sender
sender = record {
  emac = rings;
  tx_desc = λ i. record { packet = 0x2007d000 + i * 2048; control = 0 };
  memory = λ a. 0;
}

emit_buffer-sends_example :
    (n' : Sender) × (emit_buffer 0x10000000 342 1 sender ≡ some n')
    × (tx_pending n'.emac ≡ tx_pending rings + 1)
    × (get_packet_size (n'.tx_desc (tx_produce_index_inc rings 0)).control ≡ 342)
    × ((a : ℕ)
        → n'.memory a
          ≡ copied sender.memory
              ((sender.tx_desc (tx_produce_index_inc rings 0)).packet + 6)
              0x10000000
              6
              a)
unfolding tx_produce_index_inc
emit_buffer-sends_example =
    emit_buffer-sends 0x10000000 342 sender (omega arith) (omega arith) (omega arith) (omega arith)
      (inr (omega arith))
