-- ===== src/SimpleNet.antt =====
-- samples/dhcp/simple_net.c: frames received under interrupt and given to a callback, and frames sent.
pub mod Handler
pub mod Buffers
mod Tests
use rflpc.Base.{
  ℕ, zero, suc, true, false, ◌+◌, ◌-◌, ◌*◌, ◌^◌, ◌==◌, if◌then◌else◌, bit_and, bit_or, List, [],
  ◌∷◌, Option, some, none, get_or, Bool,
}
use rflpc.Base.Word.{shl, u16}
use rflpc.Base.Memory.{Memory}
use rflpc.Tinylibc.Memcpy.{memcpy}
use rflpc.Iap.{Machine, Ret, ok, minus, Rom, get_serial_number}
use rflpc.Ethernet.{
  Emac, get_current_rx_packet_descriptor, done_process_rx_packet, get_current_tx_packet_descriptor,
  tx_produce_index_inc, done_process_tx_packet, tx_full, tx_control_word, irq_get_status, irq_clear,
  set_rx_base_addresses, set_tx_base_addresses,
}
use rflpc.Ethernet.Queue.{Ring}

-- `RFLPC_ETH_IRQ_EN_RX_DONE`
abbrev pub irq_en_rx_done : ℕ
irq_en_rx_done = shl 1 3

-- `RX_BUFFER_SIZE`, `RX_BUFFER_COUNT`
abbrev pub rx_buffer_size : ℕ
rx_buffer_size = 1538

abbrev pub rx_buffer_count : ℕ
rx_buffer_count = 8

-- The ring with the frames that stand in its buffers, and all else that a callback changes.
pub record Net (A S : Type 0) : Type 0 where
  pub ring : Ring A
  pub world : S

-- `_rx_callback`, which may use the Ethernet block.
abbrev pub Callback : Type 0 → Type 0 → Type 0
Callback A S = A → Emac → S → Emac × S

module _ {A S : Type 0} where
  -- `if (_rx_callback) _rx_callback(…)`
  abbrev pub called : Option (Callback A S) → A → Emac → S → Emac × S
  called none frame e w = (e, w)
  called (some f) frame e w = f frame e w

  -- The body of the handler's loop for the frame that a descriptor shows.
  unfoldable pub serve_frame : Option (Callback A S) → A → Net A S → Net A S
  serve_frame callback frame n =
      let (e, w) = called callback frame n.ring.emac n.world in
      record { ring = record n.ring { emac = done_process_rx_packet e }; world = w }

  unfoldable pub serve : Option (Callback A S) → Net A S → Net A S
  unfolding serve_frame
  serve callback n = serve_frame callback (n.ring.frame n.ring.emac.rx_consume_index) n

  -- `while (rflpc_eth_get_current_rx_packet_descriptor(&d, &s))`
  unfoldable pub drain : ℕ → Option (Callback A S) → Net A S → Option (Net A S)
  unfolding serve
  drain zero callback n = none
  drain (suc fuel) callback n = elim (get_current_rx_packet_descriptor n.ring.emac) [
    | none ↦ some n
    | some d ↦ drain fuel callback (serve callback n)
  ]

  -- The end of the handler.
  abbrev pub clear_pending : Net A S → Net A S
  clear_pending n = record n {
    ring = record n.ring { emac = irq_clear (irq_get_status n.ring.emac) n.ring.emac };
  }

  abbrev pub cleared : (Net A S → Net A S) → Option (Net A S) → Option (Net A S)
  cleared late none = none
  cleared late (some n) = some (clear_pending (late n))

  -- `eth_handler`, where `late` is what the block does between the test that ends the loop and the clear.
  unfoldable pub eth_handler_with :
      (Net A S → Net A S) → ℕ → Option (Callback A S) → Net A S → Option (Net A S)
  unfolding drain
  eth_handler_with late fuel callback n =
      let drained = drain fuel callback n in
      if bit_and (irq_get_status n.ring.emac) irq_en_rx_done == 0
      then some (clear_pending (late n))
      else cleared late drained

  -- `eth_handler` while the block does nothing.
  unfoldable pub eth_handler : ℕ → Option (Callback A S) → Net A S → Option (Net A S)
  unfolding eth_handler_with
  eth_handler fuel callback n = eth_handler_with (λ x. x) fuel callback n

-- `mbed_auto_set_mac`
unfoldable pub mbed_auto_set_mac : {Chip : Type 0} → Rom Chip → Machine Chip → List ℕ → List ℕ
mbed_auto_set_mac iap m addr =
    let (ret, serial) = get_serial_number iap m in
    elim ret [
      | ok ↦
          2
          ∷ 3
          ∷ bit_and (get_or serial 0 0) 0xFF
          ∷ bit_and (get_or serial 1 0) 0xFF
          ∷ bit_and (get_or serial 2 0) 0xFF
          ∷ bit_and (get_or serial 3 0) 0xFF
          ∷ []
      | minus n ↦ addr
    ]

-- `rflpc_eth_descriptor_t`
pub record Descriptor : Type 0 where
  pub packet : ℕ
  pub control : ℕ

-- `rxbuffers[i]`: the array is declared `[RX_BUFFER_SIZE][RX_BUFFER_COUNT]`, so a row has 8 bytes.
unfoldable pub row : ℕ → ℕ → ℕ
row buffers i = buffers + i * rx_buffer_count

-- The descriptor `i` after the loop of simple_net_ethernet_init.
unfoldable pub rx_descriptor_of : ℕ → ℕ → Descriptor
unfolding row
rx_descriptor_of rxbuffers i = record {
  packet = row rxbuffers i;
  control = bit_or (rx_buffer_size - 1) (shl 1 31);
}

-- The transmit side: the block, its descriptors, the memory.
pub record Sender : Type 0 where
  pub emac : Emac
  pub tx_desc : ℕ → Descriptor
  pub memory : Memory

-- `simple_net_get_tx_buffer`, on a list of what the block's registers are, one after the other, when the loop
-- reads them. Where the list ends the call still waits.
unfoldable pub get_tx_buffer : (ℕ → Descriptor) → List Emac → Option ℕ
get_tx_buffer tx_desc [] = none
get_tx_buffer tx_desc (e ∷ es) = elim (tx_full e 0) [
  | true ↦ get_tx_buffer tx_desc es
  | false ↦ some (tx_desc (tx_produce_index_inc e 0)).packet
]

abbrev pub with_descriptor : (ℕ → Descriptor) → ℕ → Descriptor → ℕ → Descriptor
with_descriptor desc i d k = if k == i then d else desc k

-- `simple_net_emit_buffer`: with a full ring it has a null pointer, and no result.
unfoldable pub emit_buffer : ℕ → ℕ → ℕ → Sender → Option Sender
emit_buffer mac_addr size auto_mac n =
    let i = tx_produce_index_inc n.emac 0 in
    let d = n.tx_desc i in
    if tx_full n.emac 0
    then none
    else some (record {
      emac = done_process_tx_packet 1 n.emac;
      tx_desc = with_descriptor n.tx_desc i (record d { control = tx_control_word (u16 size) 0 1 });
      memory = if auto_mac == 0 then n.memory else memcpy (d.packet + 6) mac_addr 6 n.memory;
    })
