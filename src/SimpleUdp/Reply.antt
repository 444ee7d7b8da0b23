-- ===== src/SimpleUdp/Reply.antt =====
-- The answer of process_packet of samples/simple_udp/main.c.
use rflpc.Base.{
  ℕ, ◌+◌, ◌^◌, ◌<◌, ◌≤◌, bit_and, List, [], ◌∷◌, Option, some, ◌>>=◌, ◌≡◌, ◌≢◌, refl, ap, ◌∙◌, inl,
  arith,
}
use rflpc.Base.Bits.{bit_and-le}
use rflpc.Base.Word.{u16, shl}
use rflpc.Base.Memory.{Memory, store_all, store_all_inside, store_all_outside}
use rflpc.Tinylibc.Memcpy.Step.{AreDisjoint}
use rflpc.Protocols.Fields.{get_mac}
use rflpc.Protocols.Headers.{UdpHead, eth_demangle, udp_demangle, udp_mangle}
use rflpc.Protocols.Ip.{IpHead, ip_demangle, header_length}
use rflpc.Protocols.IpBack.{FitsIp, ip_mangle_verifies}
use rflpc.Protocols.RoundTrip.{udp_back}
use rflpc.Protocols.Checksum.{proto_checksum}
use rflpc.Ethernet.{tx_produce_index_inc}
use rflpc.Ethernet.Transmit.{IsTxValid, tx_pending, tx_free}
use rflpc.Responder.Arp.{send_one}
use rflpc.Responder.Requests.{
  AreSame, get_two-lt, get_four-lt, get_two-same, get_four-same, eth_demangle-same,
  ip_demangle-same,
}
use rflpc.Responder.Frame.{proto_checksum-same}
use rflpc.SimpleUdp.{
  Station, station_ip, port, udp, eth_get_src, eth_get_type, eth_set_src, eth_set_dst, eth_set_type,
  ip4_get_src, ip4_get_dst, ip4_get_protocol, ip4_set_header, ip4_get_header_length, udp_start,
  udp_get_src_port, udp_get_dst_port, udp_set_header, udp_get_payload, ok_frame, hand_over,
  handed_over, udp_process_packet,
}
use rflpc.SimpleUdp.Headers.{
  two_at-get, ip4_get_addr-get, header_of, moved_on, set_header-mangles, udp_set_header-mangles,
  eth_fields,
}

-- Where the UDP header of a frame starts.
abbrev pub udp_at : Memory → ℕ → ℕ
udp_at m rx = rx + 14 + header_length (ip_demangle m (rx + 14))

-- The bytes from `tx` on are the sample's answer to the datagram from `rx` on, with the counter `pid`.
pub record IsOk (m M : Memory) (mac pid rx tx : ℕ) : Type 0 where
  pub csum : ℕ
  pub ethernet :
      eth_demangle M tx
      ≡ record { src = get_mac m mac 0; dst = (eth_demangle m rx).src; type = 0x0800 }
  pub ip :
      ip_demangle M (tx + 14)
      ≡ record (header_of pid station_ip (ip_demangle m (rx + 14)).src_addr 11 udp) {
        header_checksum = csum;
      }
  pub ip_verifies : proto_checksum M (tx + 14) 20 ≡ some 0
  pub udp_header : udp_demangle M (tx + 34) ≡ record {
    src_port = port;
    dst_port = (udp_demangle m (udp_at m rx)).src_port;
    len = 11;
    checksum = 0;
  }
  pub payload : (M (tx + 42) ≡ 79) × (M (tx + 43) ≡ 75) × (M (tx + 44) ≡ 0)

start_of :
    (m : Memory) (p : ℕ)
    → (udp_start m p ≡ udp_at m p) × (header_length (ip_demangle m (p + 14)) ≤ 60)
unfolding udp_start ip4_get_header_length ip_demangle
start_of m p =
    let first : p + 14 + 0 ≡ p + 14 = omega arith in
    let small = bit_and-le (m (p + 14)) 0xf in rw first (omega (arith, small), omega (arith, small))

-- What is done once the header of IP stands.
abbrev finish : ℕ → ℕ → ℕ × Memory → Option (ℕ × Memory)
finish rx tx (next, headed) =
    let addressed = udp_set_header tx port (udp_get_src_port headed rx) 3 headed in
    some (next, store_all addressed (udp_get_payload addressed tx) (79 ∷ 75 ∷ 0 ∷ []))

header-Fits :
    (pid src len protocol : ℕ)
    → pid < 2 ^ 16
    → src < 2 ^ 32
    → protocol < 2 ^ 8
    → FitsIp (header_of pid station_ip src len protocol)
header-Fits pid src len protocol hp hs hq = record {
  version_length = omega arith;
  dscp_ecn = omega arith;
  total_length = omega arith;
  identification = hp;
  flags_frag_offset = omega arith;
  ttl = omega arith;
  protocol = hq;
  header_checksum = omega arith;
  src_addr = omega arith;
  dst_addr = hs;
}

src_of :
    (M m : Memory) (rx : ℕ)
    → ((a : ℕ) → M a < 256)
    → AreSame M m (rx + 14) 68
    → ip4_get_src M rx ≡ (ip_demangle m (rx + 14)).src_addr
unfolding ip4_get_src ip_demangle
src_of M m rx bytes same =
    ip4_get_addr-get M rx 26 12 bytes refl ∙ get_four-same M m (rx + 14) 68 same 12 (omega arith)

port_of :
    (M m : Memory) (rx : ℕ)
    → ((a : ℕ) → M a < 256)
    → AreSame M m (rx + 14) 68
    → udp_get_src_port M rx ≡ (udp_demangle m (udp_at m rx)).src_port
unfolding udp_get_src_port udp_demangle ip_demangle
port_of M m rx bytes same =
    let (start, small) = start_of M rx in
    let version : M (rx + 14 + 0) ≡ m (rx + 14 + 0) =
      same (rx + 14 + 0) (omega arith) (omega arith) in
    let at : udp_at M rx ≡ udp_at m rx = ap (λ (v : ℕ). rx + 14 + shl (bit_and v 0xf) 2) version in
    two_at-get M (udp_at m rx) 0 (udp_start M rx) bytes (omega (arith, start, at))
    ∙ get_two-same M m (udp_at m rx) 2
        (λ a lo hi. same a (omega arith) (omega (arith, start_of m rx))) 0 (omega arith)

start_of_five : (M : Memory) (tx : ℕ) → M (tx + 14) ≡ 0x45 → udp_start M tx ≡ tx + 34
unfolding udp_start
start_of_five M tx e = rw e (omega arith)

payload_of_five : (M : Memory) (tx : ℕ) → M (tx + 14) ≡ 0x45 → udp_get_payload M tx ≡ tx + 42
unfolding udp_get_payload
payload_of_five M tx e = omega (arith, start_of_five M tx e)

src_port-lt : (m : Memory) (p : ℕ) → ((a : ℕ) → m a < 256) → (udp_demangle m p).src_port < 2 ^ 16
unfolding udp_demangle
src_port-lt m p bytes = get_two-lt m p 0 bytes

udp_demangle-same :
    (m m' : Memory) (p : ℕ) → AreSame m m' p 8 → udp_demangle m p ≡ udp_demangle m' p
unfolding udp_demangle
udp_demangle-same m m' p same = λ k. record {
  src_port = get_two-same m m' p 8 same 0 (omega arith) k;
  dst_port = get_two-same m m' p 8 same 2 (omega arith) k;
  len = get_two-same m m' p 8 same 4 (omega arith) k;
  checksum = get_two-same m m' p 8 same 6 (omega arith) k;
}

-- The UDP header and the payload behind a header of IP.
finished :
    (mac pid rx tx : ℕ) (m M₂ : Memory)
    → ((a : ℕ) → m a < 256)
    → ((a : ℕ) → M₂ a < 256)
    → AreSame M₂ m (rx + 14) 68
    → M₂ (tx + 14) ≡ 0x45
    → (M : Memory) × (finish rx tx (u16 (pid + 1), M₂) ≡ some (u16 (pid + 1), M))
      × ((a : ℕ) → a < tx + 34 → M a ≡ M₂ a)
      × ((M (tx + 42) ≡ 79) × (M (tx + 43) ≡ 75) × (M (tx + 44) ≡ 0))
      × (udp_demangle M (tx + 34) ≡ record {
        src_port = port;
        dst_port = (udp_demangle m (udp_at m rx)).src_port;
        len = 11;
        checksum = 0;
      })
finished mac pid rx tx m M₂ bytes bytes₂ same version =
    let sp = (udp_demangle m (udp_at m rx)).src_port in
    let u : UdpHead = record { src_port = port; dst_port = sp; len = 11; checksum = 0 } in
    let ok : List ℕ = 79 ∷ 75 ∷ 0 ∷ [] in
    let M₃ = udp_mangle u M₂ (tx + 34) in
    let addressed : udp_set_header tx port (udp_get_src_port M₂ rx) 3 M₂ ≡ M₃ =
      ap (λ (p : ℕ). udp_set_header tx port p 3 M₂) (port_of M₂ m rx bytes₂ same)
      ∙ udp_set_header-mangles tx port sp 3 M₂
      ∙ ap (udp_mangle u M₂) (start_of_five M₂ tx version) in
    let (back, outside) =
      udp_back u M₂ (tx + 34)
        (omega arith, src_port-lt m (udp_at m rx) bytes, omega arith, omega arith) in
    let payload_at : udp_get_payload M₃ tx ≡ tx + 42 =
      payload_of_five M₃ tx (outside (tx + 14) (inl (omega arith)) ∙ version) in
    let inside = store_all_inside M₃ (tx + 42) ok in
    (
      store_all M₃ (tx + 42) ok,
      ap (λ (a : Memory). some (u16 (pid + 1), store_all a (udp_get_payload a tx) ok)) addressed
          ∙ ap (λ (q : ℕ). some (u16 (pid + 1), store_all M₃ q ok)) payload_at,
      λ a h. store_all_outside M₃ (tx + 42) ok a (inl (omega arith)) ∙ outside a (inl h),
      (
        ap (store_all M₃ (tx + 42) ok) (omega arith) ∙ inside 0 (omega arith),
        ap (store_all M₃ (tx + 42) ok) (omega arith) ∙ inside 1 (omega arith),
        ap (store_all M₃ (tx + 42) ok) (omega arith) ∙ inside 2 (omega arith),
      ),
      udp_demangle-same (store_all M₃ (tx + 42) ok) M₃ (tx + 34)
            (λ a lo hi. store_all_outside M₃ (tx + 42) ok a (inl (omega arith)))
          ∙ back,
    )

ok_frame-replies :
    (mac pid rx tx : ℕ) (m : Memory)
    → ((a : ℕ) → m a < 256)
    → pid < 2 ^ 16
    → AreDisjoint (tx + 6) mac 6
    → AreDisjoint tx rx 82
    → (M : Memory) × (ok_frame mac pid rx tx m ≡ some (u16 (pid + 1), M)) × IsOk m M mac pid rx tx
unfolding ok_frame ip_demangle eth_demangle
ok_frame-replies mac pid rx tx m bytes small apart_mac apart =
    let M₁ = eth_set_type tx 0x0800 (eth_set_dst tx (eth_get_src rx) (eth_set_src tx mac m)) in
    let (read_eth, outside₁, bytes₁) =
      eth_fields mac rx tx 0x0800 m (omega arith) apart_mac (ground arith) bytes in
    let same₁ : AreSame M₁ m (rx + 14) 68 = λ a lo hi. outside₁ a (ground arith) in
    let src = (ip_demangle m (rx + 14)).src_addr in
    let src_read : ip4_get_src M₁ rx ≡ src = src_of M₁ m rx bytes₁ same₁ in
    let h = header_of pid station_ip src 11 udp in
    let (csum, M₂, filled, read_ip, verified, bytes₂, outside₂) =
      ip_mangle_verifies h M₁ (tx + 14)
        (header-Fits pid src 11 udp small (get_four-lt m (rx + 14) 12 bytes) (omega arith)) bytes₁
        refl (omega arith) in
    let headed : ip4_set_header pid tx station_ip (ip4_get_src M₁ rx) (8 + 3) udp M₁
        ≡ some (u16 (pid + 1), M₂) =
      ap (λ (a : ℕ). ip4_set_header pid tx station_ip a 11 udp M₁) src_read
      ∙ set_header-mangles pid tx station_ip src 11 udp M₁
      ∙ ap (moved_on pid) filled in
    let same₂ : AreSame M₂ m (rx + 14) 68 = λ a lo hi. outside₂ a (ground arith) ∙ same₁ a lo hi in
    let (M, finished, top, payload, back) = finished mac pid rx tx m M₂ bytes bytes₂ same₂ (
      ap M₂ {x = tx + 14} {y = tx + 14 + 0} (omega arith)
      ∙ ap (λ (h : IpHead). h.version_length) read_ip) in
    (
      M,
      ap (λ o. o >>= finish rx tx) headed ∙ finished,
      record {
        csum = csum;
        ethernet =
            eth_demangle-same M M₂ tx 14 (λ a lo hi. top a (omega arith)) (omega arith)
            ∙ eth_demangle-same M₂ M₁ tx 14 (λ a lo hi. outside₂ a (inl (omega arith)))
                (omega arith)
            ∙ read_eth;
        ip =
            ip_demangle-same M M₂ (tx + 14) 20 (λ a lo hi. top a (omega arith)) (omega arith)
            ∙ read_ip;
        ip_verifies =
            proto_checksum-same 20 M M₂ (tx + 14) (λ a lo hi. top a (omega arith)) ∙ verified;
        udp_header = back;
        payload = payload;
      },
    )

-- A datagram for the sample's address and port in the buffer at `rx`. The buffers at `rx` and at `tx` and the
-- hardware address at `mac` do not overlap.
pub record IsDatagram (m : Memory) (mac rx tx : ℕ) : Type 0 where
  pub ethernet : (eth_demangle m rx).type ≡ 0x0800
  pub mine : (ip_demangle m (rx + 14)).dst_addr ≡ station_ip
  pub protocol : (ip_demangle m (rx + 14)).protocol ≡ udp
  pub port : (udp_demangle m (udp_at m rx)).dst_port ≡ port
  pub apart_mac : AreDisjoint (tx + 6) mac 6
  pub apart : AreDisjoint tx rx 82

guards :
    (m : Memory) (mac rx tx : ℕ)
    → ((a : ℕ) → m a < 256)
    → IsDatagram m mac rx tx
    → (eth_get_type m rx ≡ 0x0800)
      × (ip4_get_dst m rx ≡ station_ip)
      × (ip4_get_protocol m rx ≡ udp)
      × (udp_get_dst_port m rx ≡ port)
unfolding eth_get_type ip4_get_dst ip4_get_protocol udp_get_dst_port eth_demangle ip_demangle
    udp_demangle
guards m mac rx tx bytes r = (
  two_at-get m rx 12 (rx + 12) bytes refl ∙ r.ethernet,
  ip4_get_addr-get m rx 30 16 bytes refl ∙ r.mine,
  r.protocol,
  two_at-get m (udp_at m rx) 2 (udp_start m rx + 2) bytes (omega (arith, start_of m rx)) ∙ r.port,
)

-- A datagram to the sample's address and port is answered while a descriptor is free: one frame is handed over and
-- the counter of the headers moves on. The frame goes from the station's hardware address to the sender's; its IP
-- header, with the counter as its identification, goes to the address that asked and verifies; its UDP header goes
-- to the port that asked, with a length of 11 for the three bytes "OK" and 0. Bytes are below 256.
pub udp_process_packet-answers :
    (mac rx : ℕ) (s : Station)
    → ((a : ℕ) → s.sender.memory a < 256)
    → s.pid < 2 ^ 16
    → IsTxValid s.sender.emac
    → tx_free s.sender.emac ≢ 0
    → IsDatagram s.sender.memory mac rx
        (s.sender.tx_desc (tx_produce_index_inc s.sender.emac 0)).packet
    → (s' : Station) × (udp_process_packet mac rx s ≡ some s')
      × (tx_pending s'.sender.emac ≡ tx_pending s.sender.emac + 1)
      × (s'.pid ≡ u16 (s.pid + 1))
      × IsOk s.sender.memory s'.sender.memory mac s.pid rx
          (s.sender.tx_desc (tx_produce_index_inc s.sender.emac 0)).packet
unfolding udp_process_packet hand_over handed_over
udp_process_packet-answers mac rx s bytes small v free r =
    let m = s.sender.memory in
    let tx = (s.sender.tx_desc (tx_produce_index_inc s.sender.emac 0)).packet in
    let (M, built, reply) = ok_frame-replies mac s.pid rx tx m bytes small r.apart_mac r.apart in
    let (room, pending) = send_one s.sender v free in
    let (type, mine, protocol, to) = guards m mac rx tx bytes r in
    (
      handed_over s (u16 (s.pid + 1)) M,
      rw (type, mine, protocol, to, room) (ap (hand_over s) built),
      pending,
      refl,
      reply,
    )
