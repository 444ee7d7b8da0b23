-- ===== src/Ethernet/Address.antt =====
-- The address of the Ethernet block.
use rflpc.Base.{ℕ, ◌<◌, ◌≡◌, bit_and, bit_or, [], ◌∷◌, arith}
use rflpc.Base.Bits.{bit_and-mask, bit_or-add}
use rflpc.Base.Word.{shl, shr}
use rflpc.Ethernet.{Emac, get_mac_address, set_mac_address}

halves :
    (a b : ℕ)
    → a < 256
    → b < 256
    → (bit_and (shr (bit_or (shl a 8) b) 8) 0xff ≡ a) × (bit_and (bit_or (shl a 8) b) 0xff ≡ b)
halves a b ha hb =
    let w = bit_or (shl a 8) b in
    omega (arith, bit_or-add 8 a b hb, bit_and-mask 8 (shr w 8), bit_and-mask 8 w)

-- The address that rflpc_eth_set_mac_address sets, six bytes, is the one that rflpc_eth_get_mac_address gets.
pub mac_address_back :
    (e : Emac) (a0 a1 a2 a3 a4 a5 : ℕ)
    → (a0 < 256) × (a1 < 256) × (a2 < 256) × (a3 < 256) × (a4 < 256) × (a5 < 256)
    → get_mac_address (set_mac_address (a0 ∷ a1 ∷ a2 ∷ a3 ∷ a4 ∷ a5 ∷ []) e)
      ≡ a0 ∷ a1 ∷ a2 ∷ a3 ∷ a4 ∷ a5 ∷ []
unfolding get_mac_address set_mac_address
mac_address_back e a0 a1 a2 a3 a4 a5 (h0, h1, h2, h3, h4, h5) =
    let (e0, e1) = halves a0 a1 h0 h1 in
    let (e2, e3) = halves a2 a3 h2 h3 in
    let (e4, e5) = halves a4 a5 h4 h5 in λ i. e0 i ∷ e1 i ∷ e2 i ∷ e3 i ∷ e4 i ∷ e5 i ∷ []
