-- ===== src/Dhcp/Client/Reacts.antt =====
-- dhcp_process_packet of samples/dhcp/main.c ends, with the message that it sends.
use rflpc.Base.{false, List, [], ◌∷◌, ◌≡◌, ◌⊎◌}
use rflpc.Base.Memory.{Memory}
use rflpc.Ethernet.{Emac, tx_full}
use rflpc.Dhcp.Client.{Client}

-- One of the states that are read shows a free descriptor.
abbrev pub IsFreed : List Emac → Type 0
IsFreed [] = ⊥
IsFreed (e ∷ es) = (tx_full e 0 ≡ false) ⊎ IsFreed es
