-- ===== src/Protocols/IcmpBack.antt =====
-- The header of ICMP of samples/dhcp/protocols.c, whose last word has two views.
use rflpc.Base.{
  ℕ, ◌+◌, ◌*◌, ◌^◌, ◌<◌, ◌≡◌, refl, inl, inr, ◌∷◌, ◌++◌, true, false, if◌then◌else◌, Bool-cases,
  arith,
}
use rflpc.Base.Memory.{Memory, store_all, store_all_inside}
use rflpc.Protocols.Fields.{get_two, get_four, put_two, put_four}
use rflpc.Protocols.Headers.{IcmpHead, identifier, sn, is_echo, icmp_demangle, icmp_mangle}
use rflpc.Protocols.RoundTrip.{two_stored, four_stored}

echo_back :
    (h : IcmpHead) (m : Memory) (packet : ℕ)
    → h.checksum < 2 ^ 16
    → h.raw < 2 ^ 32
    → is_echo h.type ≡ true
    → icmp_demangle (icmp_mangle h m packet) packet ≡ h
unfolding icmp_demangle icmp_mangle
echo_back h m packet small_sum small echo =
    let bs = h.type ∷ h.code ∷ put_two h.checksum ++ put_two (identifier h) ++ put_two (sn h) in
    let type : store_all m packet bs (packet + 0) ≡ h.type =
      store_all_inside m packet bs 0 (omega arith) in
    let low = two_stored m packet bs 4 (identifier h) (omega arith) (omega arith) refl refl in
    let high = two_stored m packet bs 6 (sn h) (omega arith) (omega arith) refl refl in
    let word : (if is_echo (store_all m packet bs (packet + 0))
          then get_two (store_all m packet bs) packet 4
            + get_two (store_all m packet bs) packet 6 * 2 ^ 16
          else get_four (store_all m packet bs) packet 4)
        ≡ h.raw =
      rw (type, echo) (omega (arith, low, high)) in
    rw echo λ i. record {
      type = type i;
      code = store_all_inside m packet bs 1 (omega arith) i;
      checksum = two_stored m packet bs 2 h.checksum (omega arith) small_sum refl refl i;
      raw = word i;
    }

raw_back :
    (h : IcmpHead) (m : Memory) (packet : ℕ)
    → h.checksum < 2 ^ 16
    → h.raw < 2 ^ 32
    → is_echo h.type ≡ false
    → icmp_demangle (icmp_mangle h m packet) packet ≡ h
unfolding icmp_demangle icmp_mangle
raw_back h m packet small_sum small other =
    let bs = h.type ∷ h.code ∷ put_two h.checksum ++ put_four h.raw in
    let type : store_all m packet bs (packet + 0) ≡ h.type =
      store_all_inside m packet bs 0 (omega arith) in
    let word : (if is_echo (store_all m packet bs (packet + 0))
          then get_two (store_all m packet bs) packet 4
            + get_two (store_all m packet bs) packet 6 * 2 ^ 16
          else get_four (store_all m packet bs) packet 4)
        ≡ h.raw =
      rw (type, other) (four_stored m packet bs 4 h.raw (omega arith) small refl refl refl refl) in
    rw other λ i. record {
      type = type i;
      code = store_all_inside m packet bs 1 (omega arith) i;
      checksum = two_stored m packet bs 2 h.checksum (omega arith) small_sum refl refl i;
      raw = word i;
    }

-- What proto_icmp_mangle stores proto_icmp_demangle reads back, for an echo request or reply, whose
-- identifier and sequence number are the halves of the last word, and for every other type.
pub icmp_back :
    (h : IcmpHead) (m : Memory) (packet : ℕ)
    → h.checksum < 2 ^ 16
    → h.raw < 2 ^ 32
    → icmp_demangle (icmp_mangle h m packet) packet ≡ h
icmp_back h m packet small_sum small = elim (Bool-cases (is_echo h.type)) [
  | inl e ↦ echo_back h m packet small_sum small e
  | inr e ↦ raw_back h m packet small_sum small e
]
