-- ===== src/SimpleUdp.antt =====
-- samples/simple_udp/protocol.c and main.c: the fields of a frame by address, and process_packet, which answers the
-- datagrams of one UDP port. All addresses are those of the Ethernet header. `checksum` is proto_checksum.
pub mod Headers
pub mod Reply
mod Tests
use rflpc.Base.{
  ℕ, ◌+◌, ◌-◌, ◌*◌, ◌^◌, ◌/◌, ◌%◌, ◌==◌, if◌then◌else◌, not, bit_and, bit_or, List, [], ◌∷◌, ◌++◌,
  Option, some, none, ◌>>=◌,
}
use rflpc.Base.Word.{u8, u16, u32, shl, shr}
use rflpc.Base.Memory.{Memory, store_all}
use rflpc.Tinylibc.Memcpy.{memcpy}
use rflpc.Protocols.Checksum.{proto_checksum}
use rflpc.Ethernet.{tx_full, tx_produce_index_inc, done_process_tx_packet, tx_control_word}
use rflpc.SimpleNet.{Sender, with_descriptor}

-- `ptr[0] << 8 | ptr[1]`, as a `uint16_t`
unfoldable pub two_at : Memory → ℕ → ℕ
two_at m ptr = u16 (bit_or (shl (m ptr) 8) (m (ptr + 1)))

-- `eth_get_src`, `eth_get_dst` and `eth_get_payload`
abbrev pub eth_get_src : ℕ → ℕ
eth_get_src buffer = buffer + 6

abbrev pub eth_get_dst : ℕ → ℕ
eth_get_dst buffer = buffer

abbrev pub eth_get_payload : ℕ → ℕ
eth_get_payload buffer = buffer + 14

-- `eth_get_type`
unfoldable pub eth_get_type : Memory → ℕ → ℕ
unfolding two_at
eth_get_type m buffer = two_at m (buffer + 12)

-- `eth_set_src`, `eth_set_dst` and `eth_set_type`
unfoldable pub eth_set_src : ℕ → ℕ → Memory → Memory
eth_set_src buffer src m = memcpy (buffer + 6) src 6 m

unfoldable pub eth_set_dst : ℕ → ℕ → Memory → Memory
eth_set_dst buffer dst m = memcpy buffer dst 6 m

unfoldable pub eth_set_type : ℕ → ℕ → Memory → Memory
eth_set_type buffer type m = store_all m (buffer + 12) (u8 (shr type 8) ∷ bit_and type 0xff ∷ [])

-- `ip4_get_addr`
unfoldable pub ip4_get_addr : Memory → ℕ → ℕ → ℕ
ip4_get_addr m buffer offset =
    let ptr = buffer + offset in
    u32 (
      bit_or (bit_or (bit_or (shl (m ptr) 24) (shl (m (ptr + 1)) 16)) (shl (m (ptr + 2)) 8))
        (m (ptr + 3)))

unfoldable pub ip4_get_src : Memory → ℕ → ℕ
unfolding ip4_get_addr
ip4_get_src m buffer = ip4_get_addr m buffer (12 + 14)

unfoldable pub ip4_get_dst : Memory → ℕ → ℕ
unfolding ip4_get_addr
ip4_get_dst m buffer = ip4_get_addr m buffer (16 + 14)

-- `ip4_get_version` and the getters that follow it
unfoldable pub ip4_get_version : Memory → ℕ → ℕ
ip4_get_version m buffer = shr (m (buffer + 14)) 4

unfoldable pub ip4_get_header_length : Memory → ℕ → ℕ
ip4_get_header_length m buffer = u8 (shl (bit_and (m (buffer + 14)) 0xf) 2)

unfoldable pub ip4_get_total_lenght : Memory → ℕ → ℕ
unfolding two_at
ip4_get_total_lenght m buffer = two_at m (buffer + 14 + 2)

unfoldable pub ip4_get_packet_id : Memory → ℕ → ℕ
unfolding two_at
ip4_get_packet_id m buffer = two_at m (buffer + 14 + 4)

unfoldable pub ip4_get_flags : Memory → ℕ → ℕ
ip4_get_flags m buffer = shr (m (buffer + 14 + 6)) 13

unfoldable pub ip4_get_fragment_offset : Memory → ℕ → ℕ
ip4_get_fragment_offset m buffer = u8 (bit_and (m (buffer + 14 + 6)) 0x1FF)

unfoldable pub ip4_get_ttl : Memory → ℕ → ℕ
ip4_get_ttl m buffer = m (buffer + 14 + 8)

unfoldable pub ip4_get_protocol : Memory → ℕ → ℕ
ip4_get_protocol m buffer = m (buffer + 14 + 9)

unfoldable pub ip4_get_checksum : Memory → ℕ → ℕ
unfolding two_at
ip4_get_checksum m buffer = two_at m (buffer + 14 + 10)

-- The bytes that `ip4_set_addr` stores.
abbrev pub ip4_addr_bytes : ℕ → List ℕ
ip4_addr_bytes addr =
    bit_and (shr addr 24) 0xff
    ∷ bit_and (shr addr 16) 0xff
    ∷ bit_and (shr addr 8) 0xff
    ∷ bit_and addr 0xff
    ∷ []

-- `ip4_set_header`: `pid` is the static counter. The result is the counter and the memory afterwards.
unfoldable pub ip4_header_bytes : ℕ → ℕ → ℕ → ℕ → ℕ → List ℕ
ip4_header_bytes pid src dst total_length protocol =
    (0x45
      ∷ 0
      ∷ u8 (shr total_length 8)
      ∷ bit_and total_length 0xff
      ∷ u8 (shr pid 8)
      ∷ bit_and pid 0xff
      ∷ 0
      ∷ 0
      ∷ 255
      ∷ protocol
      ∷ 0
      ∷ 0
      ∷ [])
    ++ ip4_addr_bytes src
    ++ ip4_addr_bytes dst

unfoldable pub ip4_set_header : ℕ → ℕ → ℕ → ℕ → ℕ → ℕ → Memory → Option (ℕ × Memory)
unfolding ip4_header_bytes
ip4_set_header pid buffer src dst payload_length protocol m = do
  let ptr = buffer + 14
  let stored = store_all m ptr (ip4_header_bytes pid src dst (u16 (payload_length + 20)) protocol)
  csum ← proto_checksum stored ptr 20
  some (u16 (pid + 1), store_all stored (ptr + 10) (u8 (shr csum 8) ∷ bit_and csum 0xff ∷ []))

-- `udp_get_src_port`, `udp_get_dst_port`, `udp_get_length` and `udp_get_payload`
unfoldable pub udp_start : Memory → ℕ → ℕ
unfolding ip4_get_header_length
udp_start m buffer = buffer + 14 + ip4_get_header_length m buffer

unfoldable pub udp_get_src_port : Memory → ℕ → ℕ
unfolding udp_start two_at
udp_get_src_port m buffer = two_at m (udp_start m buffer)

unfoldable pub udp_get_dst_port : Memory → ℕ → ℕ
unfolding udp_start two_at
udp_get_dst_port m buffer = two_at m (udp_start m buffer + 2)

unfoldable pub udp_get_length : Memory → ℕ → ℕ
unfolding udp_start two_at
udp_get_length m buffer = two_at m (udp_start m buffer + 4)

unfoldable pub udp_get_payload : Memory → ℕ → ℕ
unfolding udp_start
udp_get_payload m buffer = udp_start m buffer + 8

-- `udp_set_header`
unfoldable pub udp_set_header : ℕ → ℕ → ℕ → ℕ → Memory → Memory
unfolding udp_start
udp_set_header buffer src_port dst_port payload_length m = store_all m (udp_start m buffer) (
    u8 (shr src_port 8)
    ∷ bit_and src_port 0xff
    ∷ u8 (shr dst_port 8)
    ∷ bit_and dst_port 0xff
    ∷ u8 (shr (payload_length + 8) 8)
    ∷ bit_and (payload_length + 8) 0xff
    ∷ 0
    ∷ 0
    ∷ [])

-- `UDP`, `PORT` and `my_ip`: 192.168.100.1
abbrev pub udp : ℕ
udp = 17

abbrev pub port : ℕ
port = 60777

abbrev pub station_ip : ℕ
station_ip = 0xC0A86401

-- The sample's state: the ring and the buffers, and the counter of ip4_set_header.
pub record Station : Type 0 where
  pub sender : Sender
  pub pid : ℕ

-- The frame that answers the one at `rx`, in the buffer at `tx`; `mac` is the address of `_mac_addr`.
unfoldable pub ok_frame : ℕ → ℕ → ℕ → ℕ → Memory → Option (ℕ × Memory)
unfolding eth_set_src eth_set_dst eth_set_type ip4_set_header udp_set_header udp_get_payload
ok_frame mac pid rx tx m = do
  let framed = eth_set_type tx 0x0800 (eth_set_dst tx (eth_get_src rx) (eth_set_src tx mac m))
  (next, headed) ← ip4_set_header pid tx station_ip (ip4_get_src framed rx) (8 + 3) udp framed
  let addressed = udp_set_header tx port (udp_get_src_port headed rx) 3 headed
  some (next, store_all addressed (udp_get_payload addressed tx) (79 ∷ 75 ∷ 0 ∷ []))

unfoldable pub handed_over : Station → ℕ → Memory → Station
handed_over s next memory =
    let n = s.sender in
    let i = tx_produce_index_inc n.emac 0 in
    record {
      sender = record {
        emac = done_process_tx_packet 1 n.emac;
        tx_desc =
            with_descriptor n.tx_desc i
              (record (n.tx_desc i) { control = tx_control_word (14 + 20 + 8 + 3) 1 1 });
        memory = memory;
      };
      pid = next;
    }

unfoldable pub hand_over : Station → Option (ℕ × Memory) → Option Station
unfolding handed_over
hand_over s none = none
hand_over s (some (next, memory)) = some (handed_over s next memory)

-- `process_packet` for the frame in the buffer at `rx`
unfoldable pub udp_process_packet : ℕ → ℕ → Station → Option Station
unfolding ok_frame hand_over
udp_process_packet mac rx s =
    let m = s.sender.memory in
    let tx = (s.sender.tx_desc (tx_produce_index_inc s.sender.emac 0)).packet in
    let answered = hand_over s (ok_frame mac s.pid rx tx m) in
    if not (eth_get_type m rx == 0x0800)
    then some s
    else if not (ip4_get_dst m rx == station_ip)
    then some s
    else if not (ip4_get_protocol m rx == udp)
    then some s
    else if not (udp_get_dst_port m rx == port)
    then some s
    else if tx_full s.sender.emac 0
    then some s
    else answered
