-- ===== src/Dhcp/Client.antt =====
-- samples/dhcp/main.c: the messages that the client sends, and how it reacts to a message.
pub mod Reacts
pub mod Requests
use rflpc.Base.{
  ℕ, zero, suc, true, false, ◌+◌, ◌-◌, ◌*◌, ◌/◌, ◌%◌, ◌^◌, ◌<◌, ◌≤◌, ◌==◌, if◌then◌else◌, leb, not,
  ◌&&◌, ◌||◌, Bool, bit_or, List, [], ◌∷◌, ◌++◌, replicate, Option, some, none, ◌>>=◌,
}
use rflpc.Base.Word.{u32, shl}
use rflpc.Base.Memory.{Memory, store_all, load_all}
use rflpc.Protocols.Fields.{EthAddr, put_mac}
use rflpc.Protocols.Headers.{EthHead, UdpHead, eth_demangle, eth_mangle, udp_demangle, udp_mangle}
use rflpc.Protocols.Ip.{IpHead, ip_demangle, ip_mangle}
use rflpc.Ethernet.{Emac, tx_full, tx_produce_index_inc}
use rflpc.SimpleNet.{Sender, emit_buffer}
use rflpc.Dhcp.{
  DhcpHead, ntohl, dhcp_mangle, dhcp_create_option_simple, dhcp_get_option_simple, option_end,
  option_dhcp_message_type, option_dhcp_requested_ip, option_dhcp_server_identifier,
}

-- `DHCPDISCOVER`, `DHCPOFFER`, `DHCPREQUEST`, `DHCPACK` and the two ports
abbrev pub dhcpdiscover : ℕ
dhcpdiscover = 1

abbrev pub dhcpoffer : ℕ
dhcpoffer = 2

abbrev pub dhcprequest : ℕ
dhcprequest = 3

abbrev pub dhcpack : ℕ
dhcpack = 5

abbrev pub dhcp_server_port : ℕ
dhcp_server_port = 67

abbrev pub dhcp_client_port : ℕ
dhcp_client_port = 68

-- The magic cookie.
abbrev pub cookie : List ℕ
cookie = 99 ∷ 130 ∷ 83 ∷ 99 ∷ []

-- The options of dhcp_discover, from `options` on; `slot` is as in dhcp_create_option_simple.
unfoldable pub discover_options : ℕ → Memory → ℕ → Memory
unfolding dhcp_create_option_simple
discover_options slot m options =
    let m₀ = store_all m options cookie in
    let (m₁, op) =
      dhcp_create_option_simple slot m₀ (options + 4) option_dhcp_message_type 1 dhcpdiscover in
    store_all m₁ op (option_end ∷ [])

-- The options of dhcp_send_request.
unfoldable pub request_options : ℕ → Memory → ℕ → ℕ → ℕ → Memory
unfolding dhcp_create_option_simple
request_options slot m options requested_ip server_ip =
    let m₀ = store_all m options cookie in
    let (m₁, op₁) =
      dhcp_create_option_simple slot m₀ (options + 4) option_dhcp_message_type 1 dhcprequest in
    let (m₂, op₂) =
      dhcp_create_option_simple slot m₁ op₁ option_dhcp_requested_ip 4 (ntohl requested_ip) in
    let (m₃, op₃) =
      dhcp_create_option_simple slot m₂ op₂ option_dhcp_server_identifier 4 (ntohl server_ip) in
    store_all m₃ op₃ (option_end ∷ [])

-- A message after memset, with what both functions put into it.
abbrev pub message : ℕ → EthAddr → List ℕ → DhcpHead
message xid mac options = record {
  op = 1;
  htype = 1;
  hlen = 6;
  hops = 0;
  xid = xid;
  secs = 0;
  flags = 0;
  ciaddr = 0;
  yiaddr = 0;
  siaddr = 0;
  giaddr = 0;
  chaddr = put_mac mac ++ replicate 10 0;
  sname = replicate 64 0;
  file = replicate 128 0;
  options = options;
}

-- The 64 bytes of the options after memset, which stand on the stack from `options` on.
abbrev pub no_options : Memory → ℕ → Memory
no_options m options = store_all m options (replicate 64 0)

-- The message of dhcp_discover, with the number that rand gave.
unfoldable pub dhcp_discover : ℕ → Memory → ℕ → ℕ → EthAddr → DhcpHead
unfolding discover_options
dhcp_discover slot m options xid mac =
    message xid mac (load_all (discover_options slot (no_options m options) options) options 64)

-- The message of dhcp_send_request.
unfoldable pub dhcp_send_request : ℕ → Memory → ℕ → ℕ → ℕ → ℕ → ℕ → EthAddr → DhcpHead
unfolding request_options
dhcp_send_request slot m options xid requested_ip server_ip offer_answer mac =
    let put = request_options slot (no_options m options) options requested_ip server_ip in
    record (message xid mac (load_all put options 64)) {
      ciaddr = if offer_answer == 0 then 0 else requested_ip;
      siaddr = server_ip;
    }

-- The frame of dhcp_send, in the transmit buffer at `tx`. The source address of the Ethernet header is not set:
-- it is what stood on the stack, and simple_net_emit_buffer puts the station's address there.
unfoldable pub dhcp_send : EthAddr → DhcpHead → ℕ → ℕ → EthAddr → Memory → ℕ → Option Memory
dhcp_send unset dh src_ip dst_ip dst_mac m tx =
    let eth : EthHead = record { src = unset; dst = dst_mac; type = 0x0800 } in
    let ip : IpHead = record {
      version_length = 0x45;
      dscp_ecn = 0;
      total_length = 20 + 8 + 300;
      identification = 0;
      flags_frag_offset = 0x4000;
      ttl = 64;
      protocol = 0x11;
      header_checksum = 0;
      src_addr = src_ip;
      dst_addr = dst_ip;
    } in
    let udp : UdpHead = record {
      src_port = dhcp_client_port;
      dst_port = dhcp_server_port;
      len = 300 + 8;
      checksum = 0;
    } in
    do
      (filled, headed) ← ip_mangle ip (eth_mangle eth m tx) (tx + 14)
      some (dhcp_mangle dh (udp_mangle udp headed (tx + 34)) (tx + 42))

-- `dhcp_request`: the message that answers an offer, whose options stand from `received` on. The variables on the
-- stack are at `slot`, and the options of the message at `options`.
unfoldable pub dhcp_request : ℕ → Memory → ℕ → ℕ → ℕ → ℕ → EthAddr → Option DhcpHead
unfolding dhcp_send_request
dhcp_request slot m options xid yiaddr received mac = do
  server ← dhcp_get_option_simple slot m (received + 4) option_dhcp_server_identifier
  some (dhcp_send_request slot m options xid yiaddr (ntohl server) 1 mac)

-- Which call the loop of dhcp_process_packet makes before it returns: none, dhcp_request, or dhcp_handle_ack.
pub data Reaction : Type 0 where
  ignored requests handles_ack : Reaction

-- The loop from `current`.
unfoldable pub process_from : ℕ → Memory → ℕ → ℕ → Option Reaction
process_from zero m options current = none
process_from (suc fuel) m options current =
    elim (leb current (options + 64) && not (m current == option_end)) [
      | false ↦ some ignored
      | true ↦ elim (m current == option_dhcp_message_type && m (current + 2) == dhcpoffer) [
        | true ↦ some requests
        | false ↦ elim (m current == option_dhcp_message_type && m (current + 2) == dhcpack) [
          | true ↦ some handles_ack
          | false ↦ process_from fuel m options (current + m (current + 1) + 2)
        ]
      ]
    ]

-- The state of dhcp_process_packet: the transmit side with its memory, where the message's options are on the stack,
-- and the variables of the calls. `mac_addr` is the address of the station's hardware address.
pub record Client : Type 0 where
  pub sender : Sender
  pub slot : ℕ
  pub own_options : ℕ
  pub mac_addr : ℕ
  pub mac : EthAddr
  pub unset : EthAddr

-- `dhcp_send` with its calls of simple_net_get_tx_buffer, on the states that the loop of that function reads, and of
-- simple_net_emit_buffer: the wait has ended with the last state that was read.
unfoldable pub wait_tx : List Emac → Option Emac
wait_tx [] = none
wait_tx (e ∷ es) = elim (tx_full e 0) [ true ↦ wait_tx es | false ↦ some e ]

abbrev pub bmac : EthAddr
bmac = record { addr0 = 255; addr1 = 255; addr2 = 255; addr3 = 255; addr4 = 255; addr5 = 255 }

unfoldable pub send_message : List Emac → DhcpHead → ℕ → Client → Option Client
unfolding wait_tx dhcp_send emit_buffer
send_message es dh src_ip c = do
  e ← wait_tx es
  let tx = (c.sender.tx_desc (tx_produce_index_inc e 0)).packet
  memory ← dhcp_send c.unset dh src_ip 0xffffffff bmac c.sender.memory tx
  sender ←
      emit_buffer c.mac_addr (14 + 20 + 8 + 300) 1 (record c.sender { emac = e; memory = memory })
  some (record c { sender = sender })

-- The call of dhcp_request. dhcp_handle_ack only prints.
unfoldable pub react : List Emac → ℕ → ℕ → ℕ → Client → Reaction → Option Client
unfolding dhcp_request send_message
react es xid yiaddr received c ignored = some c
react es xid yiaddr received c handles_ack = some c
react es xid yiaddr received c requests = do
  dh ← dhcp_request c.slot c.sender.memory c.own_options xid yiaddr received c.mac
  send_message es dh yiaddr c

-- `dhcp_process_packet`, for the message with the number `xid` and the address `yiaddr`.
unfoldable pub dhcp_process_packet : List Emac → ℕ → ℕ → ℕ → Client → Option Client
unfolding process_from react
dhcp_process_packet es xid yiaddr received c = do
  reaction ← process_from 32 c.sender.memory received (received + 4)
  react es xid yiaddr received c reaction

-- `MAC_ADDR_EQUAL`
abbrev pub mac_addr_equal : EthAddr → EthAddr → Bool
mac_addr_equal a b =
    a.addr0 == b.addr0
    && a.addr1 == b.addr1
    && a.addr2 == b.addr2
    && a.addr3 == b.addr3
    && a.addr4 == b.addr4
    && a.addr5 == b.addr5

-- The tests of packet_in: whether the frame at `data` is one for dhcp_process_packet.
unfoldable pub packet_in : EthAddr → Memory → ℕ → Bool
packet_in mac m packet =
    let eth = eth_demangle m packet in
    let ip = ip_demangle m (packet + 14) in
    let udp = udp_demangle m (packet + 34) in
    (mac_addr_equal eth.dst bmac || mac_addr_equal eth.dst mac)
    && eth.type == 0x0800
    && ip.protocol == 0x11
    && udp.dst_port == dhcp_client_port
    && udp.src_port == dhcp_server_port

-- `make_ip`
unfoldable pub make_ip : ℕ → ℕ → ℕ → ℕ → ℕ
make_ip c1 c2 c3 c4 = bit_or (bit_or (bit_or (u32 (shl c1 24)) (shl c2 16)) (shl c3 8)) c4
