-- ===== src/Ethernet.antt =====
-- rflpc17xx/drivers/ethernet.h and ethernet.c: the rings of descriptors that the driver shares with the
-- Ethernet block, and its address. `Emac` has the registers of the block that these functions use.
pub mod Receive
pub mod Queue
pub mod Transmit
pub mod Address
pub mod Mii
pub mod Link
pub mod Init
pub mod Tests
use rflpc.Base.{
  ℕ, ◌+◌, ◌-◌, ◌*◌, ◌/◌, ◌%◌, ◌^◌, ◌==◌, if◌then◌else◌, ◌&&◌, ◌||◌, not, Bool, bit_and, bit_or,
  List, [], ◌∷◌, Option, some, none, get_or,
}
use rflpc.Base.Word.{u32, shl, shr, not32}

pub record Emac : Type 0 where
  pub command : ℕ
  pub mac1 : ℕ
  pub mac2 : ℕ
  pub ipgt : ℕ
  pub ipgr : ℕ
  pub clrt : ℕ
  pub supp : ℕ
  pub maxf : ℕ
  pub mcfg : ℕ
  pub sa0 : ℕ
  pub sa1 : ℕ
  pub sa2 : ℕ
  pub rx_descriptor : ℕ
  pub rx_status : ℕ
  pub rx_descriptor_number : ℕ
  pub rx_produce_index : ℕ
  pub rx_consume_index : ℕ
  pub tx_descriptor : ℕ
  pub tx_status : ℕ
  pub tx_descriptor_number : ℕ
  pub tx_produce_index : ℕ
  pub tx_consume_index : ℕ
  pub int_enable : ℕ
  pub int_status : ℕ
  pub rx_filter_ctrl : ℕ

-- `RFLPC_ETH_CMD_RX_ENABLE`, `RFLPC_ETH_CMD_TX_ENABLE` and `RFLPC_ETH_MAC1_RECEIVE_ENABLE`
abbrev pub cmd_rx_enable : ℕ
cmd_rx_enable = 1

abbrev pub cmd_tx_enable : ℕ
cmd_tx_enable = 2

abbrev pub mac1_receive_enable : ℕ
mac1_receive_enable = 1

-- `rflpc_eth_rx_available`
unfoldable pub rx_available : Emac → Bool
rx_available e = not (e.rx_consume_index == e.rx_produce_index)

-- `rflpc_eth_get_current_rx_packet_descriptor`: the addresses of the descriptor and of its status, which
-- have eight bytes each.
unfoldable pub get_current_rx_packet_descriptor : Emac → Option (ℕ × ℕ)
get_current_rx_packet_descriptor e =
    if e.rx_consume_index == e.rx_produce_index
    then none
    else some (e.rx_descriptor + e.rx_consume_index * 8, e.rx_status + e.rx_consume_index * 8)

-- `rflpc_eth_done_process_rx_packet`
unfoldable pub done_process_rx_packet : Emac → Emac
done_process_rx_packet e =
    if e.rx_consume_index == e.rx_produce_index
    then e
    else if e.rx_consume_index == e.rx_descriptor_number
    then record e { rx_consume_index = 0 }
    else record e { rx_consume_index = u32 (e.rx_consume_index + 1) }

-- `TX_PRODUCE_INDEX_INC`
unfoldable pub tx_produce_index_inc : Emac → ℕ → ℕ
tx_produce_index_inc e inc = u32 (e.tx_produce_index + inc) % (e.tx_descriptor_number + 1)

-- The test for a full queue.
unfoldable pub tx_full : Emac → ℕ → Bool
tx_full e idx =
    tx_produce_index_inc e idx == u32 (e.tx_consume_index + (2 ^ 32 - 1))
    || (tx_produce_index_inc e idx == e.tx_descriptor_number && e.tx_consume_index == 0)

-- `rflpc_eth_get_current_tx_packet_descriptor`: a transmit status has four bytes.
unfoldable pub get_current_tx_packet_descriptor : Emac → ℕ → Option (ℕ × ℕ)
get_current_tx_packet_descriptor e idx =
    if tx_full e idx
    then none
    else some (
      e.tx_descriptor + tx_produce_index_inc e idx * 8,
      e.tx_status + tx_produce_index_inc e idx * 4,
    )

-- `rflpc_eth_get_last_sent_packet_idx`
unfoldable pub get_last_sent_packet_idx : Emac → ℕ
get_last_sent_packet_idx e =
    if e.tx_consume_index == 0 then e.tx_descriptor_number else e.tx_consume_index - 1

-- `rflpc_eth_done_process_tx_packet`
unfoldable pub done_process_tx_packet : ℕ → Emac → Emac
done_process_tx_packet count e =
    if tx_full e (u32 (count + (2 ^ 32 - 1)))
    then e
    else record e { tx_produce_index = tx_produce_index_inc e count }

-- `rflpc_eth_set_rx_base_addresses`
unfoldable pub set_rx_base_addresses : ℕ → ℕ → ℕ → Emac → Emac
set_rx_base_addresses descriptors status count e = record e {
  command = bit_or (bit_and e.command (not32 cmd_rx_enable)) cmd_rx_enable;
  mac1 = bit_or (bit_and e.mac1 (not32 mac1_receive_enable)) mac1_receive_enable;
  rx_descriptor = descriptors;
  rx_status = status;
  rx_descriptor_number = u32 (count + (2 ^ 32 - 1));
  rx_consume_index = e.rx_produce_index;
}

-- `rflpc_eth_set_tx_base_addresses`
unfoldable pub set_tx_base_addresses : ℕ → ℕ → ℕ → Emac → Emac
set_tx_base_addresses descriptors status count e = record e {
  command = bit_or (bit_and e.command (not32 cmd_tx_enable)) cmd_tx_enable;
  tx_descriptor = descriptors;
  tx_status = status;
  tx_descriptor_number = u32 (count + (2 ^ 32 - 1));
  tx_produce_index = e.tx_consume_index;
}

-- `rflpc_eth_get_mac_address`
unfoldable pub get_mac_address : Emac → List ℕ
get_mac_address e =
    bit_and (shr e.sa0 8) 0xff
    ∷ bit_and e.sa0 0xff
    ∷ bit_and (shr e.sa1 8) 0xff
    ∷ bit_and e.sa1 0xff
    ∷ bit_and (shr e.sa2 8) 0xff
    ∷ bit_and e.sa2 0xff
    ∷ []

-- `rflpc_eth_set_mac_address`
unfoldable pub set_mac_address : List ℕ → Emac → Emac
set_mac_address addr e = record e {
  sa0 = bit_or (shl (get_or addr 0 0) 8) (get_or addr 1 0);
  sa1 = bit_or (shl (get_or addr 2 0) 8) (get_or addr 3 0);
  sa2 = bit_or (shl (get_or addr 4 0) 8) (get_or addr 5 0);
}

-- `rflpc_eth_get_packet_size`
unfoldable pub get_packet_size : ℕ → ℕ
get_packet_size status_info = bit_and status_info 0x7ff + 1

-- `rflpc_eth_set_tx_control_word`: the word.
unfoldable pub tx_control_word : ℕ → ℕ → ℕ → ℕ
tx_control_word size_to_send trigger_it last_fragment =
    let size = bit_and (u32 (size_to_send + (2 ^ 32 - 1))) 0x7ff in
    let last = bit_or size (shl (bit_and last_fragment 1) 30) in
    let irq = bit_or last (shl (bit_and trigger_it 1) 31) in
    bit_or (bit_or (bit_or irq (shl 1 26)) (shl 1 28)) (shl 1 29)

-- `rflpc_eth_irq_enable`, `rflpc_eth_irq_disable` and `rflpc_eth_irq_enable_set`
unfoldable pub irq_enable : ℕ → Emac → Emac
irq_enable irqs e = record e { int_enable = bit_or e.int_enable irqs }

unfoldable pub irq_disable : ℕ → Emac → Emac
irq_disable irqs e = record e { int_enable = bit_and e.int_enable (not32 irqs) }

unfoldable pub irq_enable_set : ℕ → Emac → Emac
irq_enable_set irqs e = record e { int_enable = irqs }

-- `rflpc_eth_irq_clear`, `rflpc_eth_irq_get_status` and `rflpc_eth_irq_trigger`: the bits that are written to
-- IntClear are cleared in IntStatus, those that are written to IntSet are set.
unfoldable pub irq_clear : ℕ → Emac → Emac
irq_clear irqs e = record e { int_status = bit_and e.int_status (not32 irqs) }

unfoldable pub irq_get_status : Emac → ℕ
irq_get_status e = e.int_status

unfoldable pub irq_trigger : ℕ → Emac → Emac
irq_trigger irqs e = record e { int_status = bit_or e.int_status irqs }

-- One `if (…) LPC_EMAC->RxFilterCtrl |= …;`
abbrev pub or_if : ℕ → ℕ → ℕ → ℕ
or_if accept flag filter = if accept == 0 then filter else bit_or filter flag

-- `rflpc_eth_activate_rx_filter`
unfoldable pub activate_rx_filter : ℕ → ℕ → ℕ → Emac → Emac
activate_rx_filter accept_unicast accept_multicast accept_broadcast e =
    let unicast = or_if accept_unicast (shl 1 0) 0 in
    let multicast = or_if accept_multicast (shl 1 2) unicast in
    let broadcast = or_if accept_broadcast (shl 1 1) multicast in
    record e {
      rx_filter_ctrl = bit_or broadcast (shl 1 5);
      command = bit_and e.command (not32 (shl 1 7));
    }

-- `rflpc_eth_deactivate_rx_filter`
unfoldable pub deactivate_rx_filter : Emac → Emac
deactivate_rx_filter e = record e { command = bit_or e.command (shl 1 7) }
