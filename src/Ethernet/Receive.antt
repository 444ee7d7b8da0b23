-- ===== src/Ethernet/Receive.antt =====
-- The ring of received packets as a queue.
use rflpc.Base.{ℕ, ◌+◌, ◌-◌, ◌^◌, ◌<◌, ◌≤◌, ◌==◌, if◌then◌else◌, leb, not, ◌≡◌, arith}
use rflpc.Ethernet.{Emac, rx_available, done_process_rx_packet}

-- The indices stand inside the ring.
pub record IsRxValid (e : Emac) : Type 0 where
  pub number : e.rx_descriptor_number < 2 ^ 16
  pub produce : e.rx_produce_index ≤ e.rx_descriptor_number
  pub consume : e.rx_consume_index ≤ e.rx_descriptor_number

-- The number of received packets that were not processed.
abbrev pub rx_pending : Emac → ℕ
rx_pending e =
    if leb e.rx_consume_index e.rx_produce_index
    then e.rx_produce_index - e.rx_consume_index
    else e.rx_produce_index + (e.rx_descriptor_number + 1) - e.rx_consume_index

-- While a packet is waiting, rflpc_eth_done_process_rx_packet takes one off the queue, and the indices stay
-- inside the ring; on an empty queue it changes nothing. rflpc_eth_rx_available tells the two cases apart.
pub rx_done_takes_one :
    (e : Emac)
    → IsRxValid e
    → IsRxValid (done_process_rx_packet e)
      × (rx_pending (done_process_rx_packet e) ≡ rx_pending e - 1)
      × (rx_available e ≡ not (rx_pending e == 0))
unfolding done_process_rx_packet rx_available
rx_done_takes_one e v = ground (arith, v.number, v.produce, v.consume)
