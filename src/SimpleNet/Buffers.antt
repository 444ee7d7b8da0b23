-- ===== src/SimpleNet/Buffers.antt =====
-- The buffers of samples/dhcp/simple_net.c and simple_net_emit_buffer.
use rflpc.Base.{
  ℕ, ◌+◌, ◌-◌, ◌*◌, ◌%◌, ◌^◌, ◌<◌, ◌≤◌, ◌==◌, bit_and, bit_or, true, false, some, ◌≡◌, ◌≢◌, refl,
  ◌∙◌, inl, arith,
}
use rflpc.Base.Bits.{bit_at, bit_at-bit_or, bit_at-shl_low, bit_and-mask, eq_of_bits}
use rflpc.Base.Word.{shl, u16, u32, bit_at-mod, bit_at-bit_or-shl}
use rflpc.Tinylibc.Memcpy.{memcpy}
use rflpc.Tinylibc.Memcpy.Step.{copied, AreDisjoint}
use rflpc.Tinylibc.Memcpy.Copies.{memcpy_copies}
use rflpc.Ethernet.{
  tx_full, tx_produce_index_inc, done_process_tx_packet, get_packet_size, tx_control_word,
}
use rflpc.Ethernet.Transmit.{IsTxValid, tx_pending, tx_free, tx_full_iff_last, tx_done_hands_over}
use rflpc.SimpleNet.{
  rx_buffer_size, rx_buffer_count, row, rx_descriptor_of, with_descriptor, Sender, emit_buffer,
}

-- The flags stand above the size.
flags_above :
    (s last irq k : ℕ)
    → k < 11
    → bit_at
        (bit_or
          (bit_or (bit_or (bit_or (bit_or s (shl last 30)) (shl irq 31)) (shl 1 26)) (shl 1 28))
          (shl 1 29))
        k
      ≡ bit_at s k
flags_above s last irq k h =
    let one = bit_or s (shl last 30) in
    let two = bit_or one (shl irq 31) in
    let three = bit_or two (shl 1 26) in
    let four = bit_or three (shl 1 28) in
    ground (
      arith,
      bit_at-bit_or-shl four 29 k,
      bit_at-bit_or-shl three 28 k,
      bit_at-bit_or-shl two 26 k,
      bit_at-bit_or one (shl irq 31) k,
      bit_at-bit_or s (shl last 30) k,
      bit_at-shl_low 31 irq k (omega arith),
      bit_at-shl_low 30 last k (omega arith),
    )

low_part :
    (x s : ℕ) → s < 2 ^ 11 → ((k : ℕ) → k < 11 → bit_at x k ≡ bit_at s k) → bit_and x 0x7ff ≡ s
low_part x s small same =
    bit_and-mask 11 x
    ∙ eq_of_bits 11 (x % 2 ^ 11) s (omega arith) small λ k h. bit_at-mod 11 x k h ∙ same k h

-- The size that a descriptor gives to the Ethernet block.
control_size :
    (size trigger_it last_fragment : ℕ)
    → 0 < size
    → size ≤ 2048
    → get_packet_size (tx_control_word size trigger_it last_fragment) ≡ size
unfolding get_packet_size tx_control_word
control_size size trigger_it last_fragment h l =
    let s : bit_and (u32 (size + (2 ^ 32 - 1))) 0x7ff ≡ size - 1 =
      omega (arith, bit_and-mask 11 (u32 (size + (2 ^ 32 - 1)))) in
    rw s (
      omega (
        arith,
        low_part _ (size - 1) (omega arith)
            λ k p. flags_above (size - 1) (bit_and last_fragment 1) (bit_and trigger_it 1) k p,
      ))

self : (i : ℕ) → (i == i) ≡ true
self i = ground arith

-- Receive buffers share bytes: a descriptor allows the block to store 1538 bytes from its buffer's start, and the
-- buffer of each later descriptor starts 8 bytes behind the one before it, so it starts inside.
pub rx_buffers-Overlap :
    (rxbuffers i j : ℕ)
    → i < j
    → j < rx_buffer_count
    → ((rx_descriptor_of rxbuffers j).packet ≡ (rx_descriptor_of rxbuffers i).packet + 8 * (j - i))
      × (get_packet_size (rx_descriptor_of rxbuffers i).control ≡ 1538)
      × ((rx_descriptor_of rxbuffers j).packet
          < (rx_descriptor_of rxbuffers i).packet
            + get_packet_size (rx_descriptor_of rxbuffers i).control)
unfolding rx_descriptor_of row get_packet_size
rx_buffers-Overlap rxbuffers i j h l =
    let size : get_packet_size (bit_or (rx_buffer_size - 1) (shl 1 31)) ≡ 1538 = refl in
    (omega arith, size, omega arith)

-- While a descriptor is free, simple_net_emit_buffer with auto_mac 1, for a size from 1 to 2048 and an address that
-- the frame's source field does not overlap, hands one packet over to the Ethernet block: the descriptor has its
-- size, and the address is in the source field of the frame. No other byte of memory changes.
pub emit_buffer-sends :
    (mac_addr size : ℕ) (n : Sender)
    → IsTxValid n.emac
    → tx_free n.emac ≢ 0
    → 0 < size
    → size ≤ 2048
    → AreDisjoint ((n.tx_desc (tx_produce_index_inc n.emac 0)).packet + 6) mac_addr 6
    → (n' : Sender) × (emit_buffer mac_addr size 1 n ≡ some n')
      × (tx_pending n'.emac ≡ tx_pending n.emac + 1)
      × (get_packet_size (n'.tx_desc (tx_produce_index_inc n.emac 0)).control ≡ size)
      × ((a : ℕ)
          → n'.memory a
            ≡ copied n.memory ((n.tx_desc (tx_produce_index_inc n.emac 0)).packet + 6) mac_addr 6 a)
unfolding emit_buffer
emit_buffer-sends mac_addr size n v free h l apart =
    let i = tx_produce_index_inc n.emac 0 in
    let d = n.tx_desc i in
    let room : tx_full n.emac 0 ≡ false =
      tx_full_iff_last n.emac 0 v (omega arith) ∙ ground arith in
    let short : u16 size ≡ size = omega arith in
    (
      record {
        emac = done_process_tx_packet 1 n.emac;
        tx_desc =
            with_descriptor n.tx_desc i (record d { control = tx_control_word (u16 size) 0 1 });
        memory = memcpy (d.packet + 6) mac_addr 6 n.memory;
      },
      rw room refl,
      (tx_done_hands_over n.emac 1 v (omega arith) (omega arith)).1 ∙ ground arith,
      rw (short, self i) (control_size size 0 1 h l),
      memcpy_copies (d.packet + 6) mac_addr 6 n.memory (omega arith) apart (inl (omega arith)),
    )
