-- ===== src/Ethernet/Tests.antt =====
-- The Ethernet driver on concrete rings.
use rflpc.Base.{◌++◌, ℕ, refl, ◌≡◌, [], ◌∷◌, arith}
use rflpc.Base.Word.{set_bit}
use rflpc.Ethernet.{Emac, rx_available, done_process_rx_packet}
use rflpc.Ethernet.Receive.{IsRxValid}
use rflpc.Ethernet.Queue.{
  Ring, next, replace, queue, received, processed, arrive, process, Run, stop, more,
  frames_received, frames_processed, Run-fifo,
}

-- Four descriptors each: two packets received, one of them at the ring's end, and two to be sent.
abbrev pub rings : Emac
rings = record {
  command = 3;
  mac1 = 1;
  mac2 = 0x31;
  ipgt = 0x15;
  ipgr = 0xc12;
  clrt = 0x370f;
  supp = 0x100;
  maxf = 1538;
  mcfg = 0x24;
  sa0 = 0;
  sa1 = 0;
  sa2 = 0;
  rx_descriptor = 0x2007c000;
  rx_status = 0x2007c040;
  rx_descriptor_number = 3;
  rx_produce_index = 1;
  rx_consume_index = 3;
  tx_descriptor = 0x2007c080;
  tx_status = 0x2007c0c0;
  tx_descriptor_number = 3;
  tx_produce_index = 0;
  tx_consume_index = 2;
  int_enable = 0;
  int_status = 8;
  rx_filter_ctrl = 0;
}

-- A frame arrives behind the two that wait, and the oldest is processed.
abbrev ring : Ring ℕ
ring = record { emac = rings; frame = λ k. k }

abbrev after_arrival : Ring ℕ
after_arrival = record {
  emac = record rings { rx_produce_index = next 3 1 };
  frame = replace ring.frame 1 7;
}

abbrev after_both : Ring ℕ
after_both = record after_arrival { emac = done_process_rx_packet after_arrival.emac }

both : Run ring (received 7 ∷ processed 3 ∷ []) after_both
unfolding rx_available set_bit
both =
    more (arrive 7 (omega arith) refl)
      (more {r₁ = after_both} (process refl refl) (stop after_both))

Run-fifo_example :
    IsRxValid after_both.emac
    × (queue ring ++ frames_received (received 7 ∷ processed 3 ∷ [])
        ≡ frames_processed (received 7 ∷ processed 3 ∷ []) ++ queue after_both)
Run-fifo_example = Run-fifo (omega arith) both
