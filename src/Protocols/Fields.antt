-- ===== src/Protocols/Fields.antt =====
-- The macros of samples/dhcp/protocols.c that get and put the fields of a header.
use rflpc.Base.{ℕ, ◌+◌, ◌*◌, ◌%◌, ◌/◌, ◌<◌, ◌^◌, ◌≡◌, bit_and, bit_or, List, [], ◌∷◌, arith}
use rflpc.Base.Bits.{bit_and-mask, bit_or-add}
use rflpc.Base.Word.{u16, u32, shl, shr}
use rflpc.Base.Memory.{Memory}

-- `EthAddr`
pub record EthAddr : Type 0 where
  pub addr0 : ℕ
  pub addr1 : ℕ
  pub addr2 : ℕ
  pub addr3 : ℕ
  pub addr4 : ℕ
  pub addr5 : ℕ

-- `GET_TWO`, into a field of 16 bits
unfoldable pub get_two : Memory → ℕ → ℕ → ℕ
get_two m packet idx = bit_or (u16 (shl (m (packet + idx)) 8)) (m (packet + (idx + 1)))

-- `GET_FOUR`, into a field of 32 bits
unfoldable pub get_four : Memory → ℕ → ℕ → ℕ
get_four m packet idx =
    let first = u32 (shl (m (packet + idx)) 24) in
    let second = bit_or first (shl (m (packet + (idx + 1))) 16) in
    let third = bit_or second (shl (m (packet + (idx + 2))) 8) in
    bit_or third (m (packet + (idx + 3)))

-- `GET_MAC`
unfoldable pub get_mac : Memory → ℕ → ℕ → EthAddr
get_mac m packet idx = record {
  addr0 = m (packet + idx);
  addr1 = m (packet + (idx + 1));
  addr2 = m (packet + (idx + 2));
  addr3 = m (packet + (idx + 3));
  addr4 = m (packet + (idx + 4));
  addr5 = m (packet + (idx + 5));
}

-- The bytes that `PUT_TWO`, `PUT_FOUR` and `PUT_MAC` store one after the other.
abbrev pub put_two : ℕ → List ℕ
put_two v = bit_and (shr v 8) 0xff ∷ bit_and v 0xff ∷ []

abbrev pub put_four : ℕ → List ℕ
put_four v =
    bit_and (shr v 24) 0xff ∷ bit_and (shr v 16) 0xff ∷ bit_and (shr v 8) 0xff ∷ bit_and v 0xff ∷ []

abbrev pub put_mac : EthAddr → List ℕ
put_mac a = a.addr0 ∷ a.addr1 ∷ a.addr2 ∷ a.addr3 ∷ a.addr4 ∷ a.addr5 ∷ []

-- A field that was put is got back.
pub two_back :
    (m : Memory) (packet idx v : ℕ)
    → v < 2 ^ 16
    → m (packet + idx) ≡ bit_and (shr v 8) 0xff
    → m (packet + (idx + 1)) ≡ bit_and v 0xff
    → get_two m packet idx ≡ v
unfolding get_two
two_back m packet idx v small e0 e1 =
    let a0 = v / 256 in
    let f0 : m (packet + idx) ≡ a0 = omega (arith, e0, bit_and-mask 8 (shr v 8)) in
    let f1 : m (packet + (idx + 1)) ≡ v % 256 = omega (arith, e1, bit_and-mask 8 v) in
    let g0 : u16 (shl (m (packet + idx)) 8) ≡ a0 * 2 ^ 8 = omega (arith, f0) in
    rw (g0, f1) (omega (arith, bit_or-add 8 a0 (v % 256) (omega arith)))

pub four_back :
    (m : Memory) (packet idx v : ℕ)
    → v < 2 ^ 32
    → m (packet + idx) ≡ bit_and (shr v 24) 0xff
    → m (packet + (idx + 1)) ≡ bit_and (shr v 16) 0xff
    → m (packet + (idx + 2)) ≡ bit_and (shr v 8) 0xff
    → m (packet + (idx + 3)) ≡ bit_and v 0xff
    → get_four m packet idx ≡ v
unfolding get_four
four_back m packet idx v small e0 e1 e2 e3 =
    let a0 = v / 2 ^ 24 in
    let a1 = v / 2 ^ 16 % 256 in
    let a2 = v / 2 ^ 8 % 256 in
    let a3 = v % 256 in
    let f0 : m (packet + idx) ≡ a0 = omega (arith, e0, bit_and-mask 8 (shr v 24)) in
    let f1 : m (packet + (idx + 1)) ≡ a1 = omega (arith, e1, bit_and-mask 8 (shr v 16)) in
    let f2 : m (packet + (idx + 2)) ≡ a2 = omega (arith, e2, bit_and-mask 8 (shr v 8)) in
    let f3 : m (packet + (idx + 3)) ≡ a3 = omega (arith, e3, bit_and-mask 8 v) in
    let g0 : u32 (shl (m (packet + idx)) 24) ≡ (a0 * 2 ^ 24) = omega (arith, f0) in
    let g1 : bit_or (a0 * 2 ^ 24) (shl (m (packet + (idx + 1))) 16) ≡ (a0 * 256 + a1) * 2 ^ 16 =
      rw f1 (omega (arith, bit_or-add 24 a0 (a1 * 2 ^ 16) (omega arith))) in
    let g2 : bit_or ((a0 * 256 + a1) * 2 ^ 16) (shl (m (packet + (idx + 2))) 8)
        ≡ (a0 * 65536 + a1 * 256 + a2) * 2 ^ 8 =
      rw f2 (omega (arith, bit_or-add 16 (a0 * 256 + a1) (a2 * 2 ^ 8) (omega arith))) in
    let g3 : bit_or ((a0 * 65536 + a1 * 256 + a2) * 2 ^ 8) (m (packet + (idx + 3)))
        ≡ (a0 * 65536 + a1 * 256 + a2) * 2 ^ 8 + a3 =
      rw f3 (bit_or-add 8 (a0 * 65536 + a1 * 256 + a2) a3 (omega arith)) in
    rw (g0, g1, g2, g3) (omega arith)
