-- ===== src/Dhcp.antt =====
-- samples/dhcp/dhcp.c, dhcp.h and main.c: the messages of DHCP and their options. A message that stands on the
-- stack is a record; its bytes are those of the packed structure on a little-endian core.
pub mod Options
pub mod Heads
pub mod Client
mod Tests
use rflpc.Base.{
  ℕ, zero, suc, true, false, ◌+◌, ◌-◌, ◌*◌, ◌/◌, ◌%◌, ◌^◌, ◌==◌, if◌then◌else◌, leb, ltb, not, ◌&&◌,
  Bool, bit_or, List, [], ◌∷◌, ◌++◌, take, drop, length, get_or, replicate, min, Option, some, none,
  ◌>>=◌,
}
use rflpc.Base.Word.{u8, u32, shl}
use rflpc.Base.Memory.{Memory, store_all, load_all}
use rflpc.Tinylibc.Memcpy.{memcpy}

-- The bytes of a word as the core stores it, and the word that it loads from bytes.
abbrev pub bytes32 : ℕ → List ℕ
bytes32 v = v % 2 ^ 8 ∷ v / 2 ^ 8 % 2 ^ 8 ∷ v / 2 ^ 16 % 2 ^ 8 ∷ v / 2 ^ 24 % 2 ^ 8 ∷ []

abbrev pub bytes16 : ℕ → List ℕ
bytes16 v = v % 2 ^ 8 ∷ v / 2 ^ 8 % 2 ^ 8 ∷ []

abbrev pub word_of : ℕ → ℕ → ℕ → ℕ → ℕ
word_of a b c d = a + b * 2 ^ 8 + c * 2 ^ 16 + d * 2 ^ 24

abbrev pub load32 : Memory → ℕ → ℕ
load32 m p = word_of (m p) (m (p + 1)) (m (p + 2)) (m (p + 3))

-- `ntohl`
unfoldable pub ntohl : ℕ → ℕ
ntohl val =
    let c0 = val % 2 ^ 8 in
    let c1 = val / 2 ^ 8 % 2 ^ 8 in
    let c2 = val / 2 ^ 16 % 2 ^ 8 in
    let c3 = val / 2 ^ 24 % 2 ^ 8 in
    bit_or (bit_or (bit_or (u32 (shl c0 24)) (shl c1 16)) (shl c2 8)) c3

-- `DhcpHead`
pub record DhcpHead : Type 0 where
  pub op : ℕ
  pub htype : ℕ
  pub hlen : ℕ
  pub hops : ℕ
  pub xid : ℕ
  pub secs : ℕ
  pub flags : ℕ
  pub ciaddr : ℕ
  pub yiaddr : ℕ
  pub siaddr : ℕ
  pub giaddr : ℕ
  pub chaddr : List ℕ
  pub sname : List ℕ
  pub file : List ℕ
  pub options : List ℕ

-- The four addresses between the host's order and the network's.
abbrev pub swapped : DhcpHead → DhcpHead
swapped dh = record dh {
  ciaddr = ntohl dh.ciaddr;
  yiaddr = ntohl dh.yiaddr;
  siaddr = ntohl dh.siaddr;
  giaddr = ntohl dh.giaddr;
}

-- The 28 bytes in front of the arrays.
abbrev pub front_bytes : DhcpHead → List ℕ
front_bytes dh =
    dh.op ∷ dh.htype ∷ dh.hlen ∷ dh.hops ∷ bytes32 dh.xid
    ++ bytes16 dh.secs
    ++ bytes16 dh.flags
    ++ bytes32 dh.ciaddr
    ++ bytes32 dh.yiaddr
    ++ bytes32 dh.siaddr
    ++ bytes32 dh.giaddr

abbrev pub array_bytes : DhcpHead → List ℕ
array_bytes dh = dh.chaddr ++ (dh.sname ++ (dh.file ++ dh.options))

-- `proto_dhcp_mangle`: the structure is as before afterwards.
unfoldable pub dhcp_mangle : DhcpHead → Memory → ℕ → Memory
dhcp_mangle dh m packet = store_all m packet (front_bytes (swapped dh) ++ array_bytes (swapped dh))

-- The structure that the bytes from `packet` on are, and `proto_dhcp_demangle`
abbrev pub struct_at : Memory → ℕ → DhcpHead
struct_at m packet = record {
  op = m (packet + 0);
  htype = m (packet + 1);
  hlen = m (packet + 2);
  hops = m (packet + 3);
  xid = word_of (m (packet + 4)) (m (packet + 5)) (m (packet + 6)) (m (packet + 7));
  secs = m (packet + 8) + m (packet + 9) * 2 ^ 8;
  flags = m (packet + 10) + m (packet + 11) * 2 ^ 8;
  ciaddr = word_of (m (packet + 12)) (m (packet + 13)) (m (packet + 14)) (m (packet + 15));
  yiaddr = word_of (m (packet + 16)) (m (packet + 17)) (m (packet + 18)) (m (packet + 19));
  siaddr = word_of (m (packet + 20)) (m (packet + 21)) (m (packet + 22)) (m (packet + 23));
  giaddr = word_of (m (packet + 24)) (m (packet + 25)) (m (packet + 26)) (m (packet + 27));
  chaddr = load_all m (packet + 28) 16;
  sname = load_all m (packet + 44) 64;
  file = load_all m (packet + 108) 128;
  options = load_all m (packet + 236) 64;
}

unfoldable pub dhcp_demangle : Memory → ℕ → DhcpHead
unfolding ntohl
dhcp_demangle m packet = swapped (struct_at m packet)

-- `OPTION_…`
abbrev pub option_end : ℕ
option_end = 0xff

abbrev pub option_dhcp_requested_ip : ℕ
option_dhcp_requested_ip = 50

abbrev pub option_dhcp_message_type : ℕ
option_dhcp_message_type = 53

abbrev pub option_dhcp_server_identifier : ℕ
option_dhcp_server_identifier = 54

-- `dhcp_create_option_array`: the memory, and where the next option goes. `val` is the address of the value.
unfoldable pub dhcp_create_option_array : Memory → ℕ → ℕ → ℕ → ℕ → Memory × ℕ
dhcp_create_option_array m options code len val = (
  memcpy (options + 2) val (u8 len) (store_all m options (u8 code ∷ u8 len ∷ [])),
  options + u8 len + 2,
)

-- `dhcp_create_option_simple`: `slot` is the address of the parameter `val` on the stack.
unfoldable pub dhcp_create_option_simple : ℕ → Memory → ℕ → ℕ → ℕ → ℕ → Memory × ℕ
unfolding dhcp_create_option_array
dhcp_create_option_simple slot m options code len val =
    dhcp_create_option_array (store_all m slot (bytes32 val)) options code len slot

-- The loop of dhcp_get_option_array from `current`: what the function returns, and the memory.
unfoldable pub get_option_from : ℕ → Memory → ℕ → ℕ → ℕ → ℕ → ℕ → Option (ℕ × Memory)
get_option_from zero m options code array max_size current = none
get_option_from (suc fuel) m options code array max_size current =
    elim (leb current (options + 60) && not (m current == option_end)) [
      | false ↦ some (option_end, m)
      | true ↦ elim (m current == code) [
        | true ↦
            let len = if ltb max_size (m (current + 1)) then max_size else m (current + 1) in
            some (code, memcpy array (current + 2) len m)
        | false ↦ get_option_from fuel m options code array max_size (current + m (current + 1) + 2)
      ]
    ]

-- `dhcp_get_option_array`
unfoldable pub dhcp_get_option_array : Memory → ℕ → ℕ → ℕ → ℕ → Option (ℕ × Memory)
unfolding get_option_from
dhcp_get_option_array m options code array max_size =
    get_option_from 32 m options code array max_size options

-- `dhcp_get_option_simple`: `slot` is the address of `val` on the stack.
abbrev pub option_value : ℕ → ℕ × Memory → ℕ
option_value slot (r, m) = if r == option_end then option_end else load32 m slot

unfoldable pub dhcp_get_option_simple : ℕ → Memory → ℕ → ℕ → Option ℕ
unfolding dhcp_get_option_array
dhcp_get_option_simple slot m options code = do
  found ← dhcp_get_option_array (store_all m slot (bytes32 0)) options code slot 4
  some (option_value slot found)
