-- ===== src/Dhcp/Heads.antt =====
-- proto_dhcp_mangle and proto_dhcp_demangle.
use mathlib.Core.List.{append_assoc, append-nil}
use rflpc.Base.{
  ℕ, ◌+◌, ◌*◌, ◌/◌, ◌%◌, ◌^◌, ◌<◌, ◌≤◌, bit_or, List, [], ◌++◌, length, get_or, length-append,
  get_or-append_left, ◌≡◌, ◌⊎◌, refl, sym, ap, ◌∙◌, arith,
}
use rflpc.Base.Bits.{bit_or-add}
use rflpc.Base.Word.{u32, shl}
use rflpc.Base.Memory.{
  Memory, store_all, store_all_inside, store_all_outside, load_all, load_all-part,
}
use rflpc.Dhcp.{
  word_of, ntohl, DhcpHead, swapped, front_bytes, array_bytes, dhcp_mangle, dhcp_demangle,
}

-- The four bytes in the other order.
ntohl_bytes :
    (v : ℕ)
    → v < 2 ^ 32
    → ntohl v ≡ word_of (v / 2 ^ 24) (v / 2 ^ 16 % 256) (v / 2 ^ 8 % 256) (v % 256)
unfolding ntohl
ntohl_bytes v h =
    let c0 = v % 256 in
    let c1 = v / 2 ^ 8 % 256 in
    let c2 = v / 2 ^ 16 % 256 in
    let c3 = v / 2 ^ 24 % 256 in
    let g0 : u32 (shl c0 24) ≡ c0 * 2 ^ 24 = omega arith in
    let g1 : bit_or (c0 * 2 ^ 24) (shl c1 16) ≡ (c0 * 256 + c1) * 2 ^ 16 =
      omega (arith, bit_or-add 24 c0 (c1 * 2 ^ 16) (omega arith)) in
    let g2 : bit_or ((c0 * 256 + c1) * 2 ^ 16) (shl c2 8) ≡ (c0 * 65536 + c1 * 256 + c2) * 2 ^ 8 =
      omega (arith, bit_or-add 16 (c0 * 256 + c1) (c2 * 2 ^ 8) (omega arith)) in
    let g3 : bit_or ((c0 * 65536 + c1 * 256 + c2) * 2 ^ 8) c3
        ≡ (c0 * 65536 + c1 * 256 + c2) * 2 ^ 8 + c3 =
      bit_or-add 8 (c0 * 65536 + c1 * 256 + c2) c3 (omega arith) in
    rw (g0, g1, g2, g3) (omega arith)

pub ntohl-lt : (v : ℕ) → v < 2 ^ 32 → ntohl v < 2 ^ 32
ntohl-lt v h = omega (arith, ntohl_bytes v h)

pub ntohl-ntohl : (v : ℕ) → v < 2 ^ 32 → ntohl (ntohl v) ≡ v
ntohl-ntohl v h = omega (arith, ntohl_bytes v h, ntohl_bytes (ntohl v) (ntohl-lt v h))

-- The fields fit their widths, and the arrays have their lengths.
pub record FitsDhcp (dh : DhcpHead) : Type 0 where
  pub xid : dh.xid < 2 ^ 32
  pub secs : dh.secs < 2 ^ 16
  pub flags : dh.flags < 2 ^ 16
  pub ciaddr : dh.ciaddr < 2 ^ 32
  pub yiaddr : dh.yiaddr < 2 ^ 32
  pub siaddr : dh.siaddr < 2 ^ 32
  pub giaddr : dh.giaddr < 2 ^ 32
  pub chaddr : length dh.chaddr ≡ 16
  pub sname : length dh.sname ≡ 64
  pub file : length dh.file ≡ 128
  pub options : length dh.options ≡ 64

pub word_back :
    (v : ℕ)
    → v < 2 ^ 32
    → word_of (v % 2 ^ 8) (v / 2 ^ 8 % 2 ^ 8) (v / 2 ^ 16 % 2 ^ 8) (v / 2 ^ 24 % 2 ^ 8) ≡ v
word_back v h = omega arith

half_at :
    (m : Memory) (p q v : ℕ)
    → v < 2 ^ 16
    → m p ≡ v % 2 ^ 8
    → m q ≡ v / 2 ^ 8 % 2 ^ 8
    → m p + m q * 2 ^ 8 ≡ v
half_at m p q v s a b = omega arith

module _ (dh : DhcpHead) (m : Memory) (packet : ℕ) (fits : FitsDhcp dh) where
  abbrev stored : Memory
  stored = dhcp_mangle dh m packet

  front : (j : ℕ) → j < 28 → stored (packet + j) ≡ get_or (front_bytes (swapped dh)) j 0
  unfolding dhcp_mangle
  front j h =
      let bs = front_bytes (swapped dh) in
      let rest = array_bytes (swapped dh) in
      store_all_inside m packet (bs ++ rest) j (omega (arith, length-append bs rest))
      ∙ get_or-append_left bs rest j 0 h

  word_at :
      (j v : ℕ)
      → j + 3 < 28
      → v < 2 ^ 32
      → get_or (front_bytes (swapped dh)) j 0 ≡ v % 2 ^ 8
      → get_or (front_bytes (swapped dh)) (j + 1) 0 ≡ v / 2 ^ 8 % 2 ^ 8
      → get_or (front_bytes (swapped dh)) (j + 2) 0 ≡ v / 2 ^ 16 % 2 ^ 8
      → get_or (front_bytes (swapped dh)) (j + 3) 0 ≡ v / 2 ^ 24 % 2 ^ 8
      → word_of
          (stored (packet + j))
          (stored (packet + (j + 1)))
          (stored (packet + (j + 2)))
          (stored (packet + (j + 3)))
        ≡ v
  word_at j v h s a b c d =
      rw
        (
          front j (omega arith) ∙ a,
          front (j + 1) (omega arith) ∙ b,
          front (j + 2) (omega arith) ∙ c,
          front (j + 3) (omega arith) ∙ d,
        )
        (word_back v s)

  array_at :
      (q n : ℕ) (xs part zs : List ℕ)
      → front_bytes (swapped dh) ++ array_bytes (swapped dh) ≡ xs ++ (part ++ zs)
      → q ≡ packet + length xs
      → length part ≡ n
      → load_all stored q n ≡ part
  unfolding dhcp_mangle
  array_at q n xs part zs split place size =
      ap (λ (k : ℕ). load_all stored q k) (sym size)
      ∙ ap (λ bs. load_all (store_all m packet bs) q (length part)) split
      ∙ load_all-part m packet q xs part zs place

outside :
    (dh : DhcpHead) (m : Memory) (packet a : ℕ)
    → length (front_bytes (swapped dh) ++ array_bytes (swapped dh)) ≡ 300
    → (a < packet) ⊎ (packet + 300 ≤ a)
    → dhcp_mangle dh m packet a ≡ m a
unfolding dhcp_mangle
outside dh m packet a n out =
    store_all_outside m packet (front_bytes (swapped dh) ++ array_bytes (swapped dh)) a (rw n out)

-- The bytes up to each array.
total_length :
    (dh : DhcpHead)
    → FitsDhcp dh
    → (length (front_bytes (swapped dh) ++ dh.chaddr) ≡ 44)
      × (length ((front_bytes (swapped dh) ++ dh.chaddr) ++ dh.sname) ≡ 108)
      × (length (((front_bytes (swapped dh) ++ dh.chaddr) ++ dh.sname) ++ dh.file) ≡ 236)
      × (length (front_bytes (swapped dh) ++ array_bytes (swapped dh)) ≡ 300)
total_length dh f =
    let h = front_bytes (swapped dh) in
    let first = length-append h dh.chaddr in
    let second = length-append (h ++ dh.chaddr) dh.sname in
    let third = length-append ((h ++ dh.chaddr) ++ dh.sname) dh.file in
    let a = length-append h (array_bytes (swapped dh)) in
    let b = length-append dh.chaddr (dh.sname ++ (dh.file ++ dh.options)) in
    let c = length-append dh.sname (dh.file ++ dh.options) in
    let d = length-append dh.file dh.options in
    let size : length h ≡ 28 = refl in
    (
      omega (arith, f.chaddr),
      omega (arith, f.chaddr, f.sname),
      omega (arith, f.chaddr, f.sname, f.file),
      omega (arith, f.chaddr, f.sname, f.file, f.options),
    )

-- What proto_dhcp_mangle stores proto_dhcp_demangle reads back, if the fields fit their widths and the arrays have
-- their lengths, and no other byte than the 300 of the message changes.
pub dhcp_back :
    (dh : DhcpHead) (m : Memory) (packet : ℕ)
    → FitsDhcp dh
    → (dhcp_demangle (dhcp_mangle dh m packet) packet ≡ dh)
      × ((a : ℕ) → (a < packet) ⊎ (packet + 300 ≤ a) → dhcp_mangle dh m packet a ≡ m a)
unfolding dhcp_demangle
dhcp_back dh m packet f =
    let h = front_bytes (swapped dh) in
    let one = front dh m packet f in
    let (n₁, n₂, n₃, n₄) = total_length dh f in
    let tail = dh.file ++ dh.options in
    let split₁ : h ++ array_bytes (swapped dh) ≡ (h ++ dh.chaddr) ++ (dh.sname ++ tail) =
      sym (append_assoc h dh.chaddr (dh.sname ++ tail)) in
    let split₂ : h ++ array_bytes (swapped dh) ≡ ((h ++ dh.chaddr) ++ dh.sname) ++ tail =
      split₁ ∙ sym (append_assoc (h ++ dh.chaddr) dh.sname tail) in
    let split₃ : h ++ array_bytes (swapped dh)
        ≡ (((h ++ dh.chaddr) ++ dh.sname) ++ dh.file) ++ (dh.options ++ []) =
      split₂
      ∙ sym (append_assoc ((h ++ dh.chaddr) ++ dh.sname) dh.file dh.options)
      ∙ ap (λ o. (((h ++ dh.chaddr) ++ dh.sname) ++ dh.file) ++ o) (sym (append-nil dh.options)) in
    let sname =
      array_at dh m packet f (packet + 44) 64 (h ++ dh.chaddr) dh.sname tail split₁ (omega arith)
        f.sname in
    let file =
      array_at dh m packet f (packet + 108) 128 ((h ++ dh.chaddr) ++ dh.sname) dh.file dh.options
        split₂ (omega arith) f.file in
    let options =
      array_at dh m packet f (packet + 236) 64 (((h ++ dh.chaddr) ++ dh.sname) ++ dh.file)
        dh.options [] split₃ (omega arith) f.options in
    (
      λ i. record {
        op = one 0 (omega arith) i;
        htype = one 1 (omega arith) i;
        hlen = one 2 (omega arith) i;
        hops = one 3 (omega arith) i;
        xid = word_at dh m packet f 4 dh.xid (omega arith) f.xid refl refl refl refl i;
        secs =
            half_at (stored dh m packet f) (packet + 8) (packet + 9) dh.secs f.secs
              (one 8 (omega arith)) (one 9 (omega arith)) i;
        flags =
            half_at (stored dh m packet f) (packet + 10) (packet + 11) dh.flags f.flags
              (one 10 (omega arith)) (one 11 (omega arith)) i;
        ciaddr =
            (ap ntohl (
                  word_at dh m packet f 12 (ntohl dh.ciaddr) (omega arith)
                    (ntohl-lt dh.ciaddr f.ciaddr) refl refl refl refl)
                ∙ ntohl-ntohl dh.ciaddr f.ciaddr)
              i;
        yiaddr =
            (ap ntohl (
                  word_at dh m packet f 16 (ntohl dh.yiaddr) (omega arith)
                    (ntohl-lt dh.yiaddr f.yiaddr) refl refl refl refl)
                ∙ ntohl-ntohl dh.yiaddr f.yiaddr)
              i;
        siaddr =
            (ap ntohl (
                  word_at dh m packet f 20 (ntohl dh.siaddr) (omega arith)
                    (ntohl-lt dh.siaddr f.siaddr) refl refl refl refl)
                ∙ ntohl-ntohl dh.siaddr f.siaddr)
              i;
        giaddr =
            (ap ntohl (
                  word_at dh m packet f 24 (ntohl dh.giaddr) (omega arith)
                    (ntohl-lt dh.giaddr f.giaddr) refl refl refl refl)
                ∙ ntohl-ntohl dh.giaddr f.giaddr)
              i;
        chaddr =
            array_at dh m packet f (packet + 28) 16 h dh.chaddr
              (dh.sname ++ (dh.file ++ dh.options)) refl refl f.chaddr i;
        sname = sname i;
        file = file i;
        options = options i;
      },
      λ a out. outside dh m packet a n₄ out,
    )
