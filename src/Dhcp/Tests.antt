-- ===== src/Dhcp/Tests.antt =====
-- The messages of DHCP on concrete values.
use rflpc.Base.{ℕ, ◌+◌, ◌-◌, ◌*◌, ◌<◌, ◌≤◌, List, [], ◌∷◌, get_or, replicate, ◌≡◌, ◌⊎◌, refl, arith}
use rflpc.Base.Memory.{Memory}
use rflpc.Ethernet.Tests.{rings}
use rflpc.Dhcp.{DhcpHead, dhcp_mangle, dhcp_demangle}
use rflpc.Dhcp.Heads.{dhcp_back}
use rflpc.Dhcp.Options.{Opt}
use rflpc.Dhcp.Client.{Client, bmac}

abbrev offer : DhcpHead
offer = record {
  op = 2;
  htype = 1;
  hlen = 6;
  hops = 0;
  xid = 0x12345678;
  secs = 1;
  flags = 0x8000;
  ciaddr = 0;
  yiaddr = 0xC0A8646E;
  siaddr = 0xC0A86401;
  giaddr = 0;
  chaddr = replicate 16 2;
  sname = replicate 64 0;
  file = replicate 128 0;
  options = replicate 64 255;
}

dhcp_back_example :
    (dhcp_demangle (dhcp_mangle offer (λ a. 7) 100) 100 ≡ offer)
    × ((a : ℕ) → (a < 100) ⊎ (400 ≤ a) → dhcp_mangle offer (λ b. 7) 100 a ≡ 7)
dhcp_back_example =
    dhcp_back offer (λ a. 7) 100
      (record {
        xid = omega arith;
        secs = omega arith;
        flags = omega arith;
        ciaddr = omega arith;
        yiaddr = omega arith;
        siaddr = omega arith;
        giaddr = omega arith;
        chaddr = refl;
        sname = refl;
        file = refl;
        options = refl;
      })

-- The options of an offer: a message type, a router and the end.
abbrev options : Memory
options a = get_or (53 ∷ 1 ∷ 2 ∷ 3 ∷ 4 ∷ 192 ∷ 168 ∷ 100 ∷ 1 ∷ 255 ∷ []) (a - 200) 0

abbrev offered : List Opt
offered = (53, 2 ∷ []) ∷ (3, 192 ∷ 168 ∷ 100 ∷ 1 ∷ []) ∷ []

-- A client that has an offer in memory.
abbrev client : Client
client = record {
  sender = record {
    emac = rings;
    tx_desc = λ i. record { packet = 0x3000 + i * 2048; control = 0 };
    memory = options;
  };
  slot = 900;
  own_options = 1000;
  mac_addr = 2000;
  mac = bmac;
  unset = bmac;
}
