-- ===== src/Responder/Frame.antt =====
-- The frame that answers an ICMP echo request, as a whole.
use rflpc.Base.{
  ℕ, zero, suc, ◌+◌, ◌-◌, ◌*◌, ◌^◌, ◌<◌, ◌≤◌, List, [], ◌∷◌, ◌++◌, some, ◌≡◌, ◌⊎◌, inl, inr, refl,
  ap, ap₂, ◌∙◌, arith,
}
use rflpc.Base.Word.{u32, shl}
use rflpc.Base.Memory.{Memory, store_all, store_all_outside}
use rflpc.Tinylibc.Memcpy.{memcpy}
use rflpc.Tinylibc.Memcpy.Step.{copied, AreDisjoint}
use rflpc.Tinylibc.Memcpy.Copies.{memcpy_copies}
use rflpc.Protocols.Fields.{EthAddr, get_mac, get_two, put_mac, put_two}
use rflpc.Protocols.Headers.{eth_demangle, eth_mangle, icmp_demangle}
use rflpc.Protocols.Ip.{ip_demangle, header_length}
use rflpc.Protocols.IpBack.{
  FitsIp, AreBytes, store_all_bytes, mask-lt, ip_mangle_verifies, filled_checksum,
}
use rflpc.Protocols.RoundTrip.{eth_back}
use rflpc.Protocols.Checksum.{proto_checksum, add_words, inverted, add_carries, load16, ntohs}
use rflpc.Protocols.Verify.{proto_checksum_lem}
use rflpc.Responder.{eth_reply, ip_reply, echo_frame}
use rflpc.Responder.Requests.{AreSame, get_two-lt, get_four-lt, eth_demangle-same, ip_demangle-same}
use rflpc.Responder.Arp.{eth_type-lt}
use rflpc.Responder.Echo.{reply_header, icmp_mangle-reply, answered}

-- An address of six bytes.
abbrev pub IsMac : EthAddr → Type 0
IsMac a = AreBytes (put_mac a)

-- The bytes from `tx` on are the reply of the station `mac_addr` to the request from `rx` on.
pub record IsEchoReply (mac_addr : EthAddr) (m M : Memory) (rx tx hl l : ℕ) : Type 0 where
  pub csum : ℕ
  pub ethernet :
      eth_demangle M tx
      ≡ record { src = mac_addr; dst = (eth_demangle m rx).src; type = (eth_demangle m rx).type }
  pub ip : ip_demangle M (tx + 14) ≡ record (ip_demangle m (rx + 14)) {
    header_checksum = csum;
    src_addr = (ip_demangle m (rx + 14)).dst_addr;
    dst_addr = (ip_demangle m (rx + 14)).src_addr;
  }
  pub ip_verifies : proto_checksum M (tx + 14) hl ≡ some 0
  pub icmp_type : M (tx + (14 + hl)) ≡ 0
  pub icmp_code : M (tx + (14 + hl) + 1) ≡ m (rx + (14 + hl) + 1)
  pub icmp_rest : (j : ℕ) → 4 ≤ j → j < l → M (tx + (14 + hl) + j) ≡ m (rx + (14 + hl) + j)
  pub icmp_verifies : proto_checksum M (tx + (14 + hl)) l ≡ some 0

add_words-same :
    (n : ℕ) (m m' : Memory) (p c : ℕ) → AreSame m m' p n → add_words n m p c ≡ add_words n m' p c
unfolding add_words load16
add_words-same zero m m' p c same = refl
add_words-same (suc zero) m m' p c same =
    ap (λ a. u32 (c + shl a 8)) (same p (omega arith) (omega arith))
add_words-same (suc (suc n)) m m' p c same =
    ap₂ (λ a b. add_words n m (p + 2) (u32 (c + ntohs (a + b * 2 ^ 8))))
      (same p (omega arith) (omega arith)) (same (p + 1) (omega arith) (omega arith))
    ∙ add_words-same n m m' (p + 2) _ (λ a lo hi. same a (omega arith) (omega arith))

pub proto_checksum-same :
    (n : ℕ) (m m' : Memory) (p : ℕ)
    → AreSame m m' p n
    → proto_checksum m p n ≡ proto_checksum m' p n
unfolding proto_checksum
proto_checksum-same n m m' p same =
    ap (λ c. inverted (add_carries 3 c)) (add_words-same n m m' p 0 same)

ip_reply-Fits : (m : Memory) (p : ℕ) → ((b : ℕ) → m b < 256) → FitsIp (ip_reply (ip_demangle m p))
unfolding ip_demangle
ip_reply-Fits m p bytes = record {
  version_length = bytes (p + 0);
  dscp_ecn = bytes (p + 1);
  total_length = get_two-lt m p 2 bytes;
  identification = get_two-lt m p 4 bytes;
  flags_frag_offset = get_two-lt m p 6 bytes;
  ttl = bytes (p + 8);
  protocol = bytes (p + 9);
  header_checksum = omega arith;
  src_addr = get_four-lt m p 16 bytes;
  dst_addr = get_four-lt m p 12 bytes;
}

AreBytes-append : (xs ys : List ℕ) → AreBytes xs → AreBytes ys → AreBytes (xs ++ ys)
AreBytes-append [] ys hx hy = hy
AreBytes-append (x ∷ xs) ys (h, hx) hy = (h, AreBytes-append xs ys hx hy)

get_mac-bytes : (m : Memory) (p i : ℕ) → ((b : ℕ) → m b < 256) → IsMac (get_mac m p i)
unfolding get_mac
get_mac-bytes m p i bytes = (bytes _, (bytes _, (bytes _, (bytes _, (bytes _, (bytes _, tt))))))

eth_mangle-bytes :
    (mac_addr : EthAddr) (m : Memory) (rx tx : ℕ)
    → IsMac mac_addr
    → ((b : ℕ) → m b < 256)
    → (b : ℕ) → eth_mangle (eth_reply mac_addr (eth_demangle m rx)) m tx b < 256
unfolding eth_mangle eth_demangle
eth_mangle-bytes mac_addr m rx tx mac bytes =
    let src = (get_mac m rx 6) in
    store_all_bytes m tx (put_mac src ++ put_mac mac_addr ++ put_two (get_two m rx 12)) bytes (
      AreBytes-append (put_mac src) (put_mac mac_addr ++ put_two (get_two m rx 12))
        (get_mac-bytes m rx 6 bytes)
        (AreBytes-append (put_mac mac_addr) (put_two (get_two m rx 12)) mac
          (mask-lt _, (mask-lt _, tt))))

reply_header-bytes : (m : Memory) (q : ℕ) → ((b : ℕ) → m b < 256) → AreBytes (reply_header m q)
reply_header-bytes m q bytes = (
  omega arith,
  (bytes _, (omega arith, (omega arith, (bytes _, (bytes _, (bytes _, (bytes _, tt))))))),
)

pub copied-bytes : (m : Memory) (d s n b : ℕ) → ((a : ℕ) → m a < 256) → copied m d s n b < 256
copied-bytes m d s n b bytes = ground (arith, bytes b, bytes (s + (b - d)))

-- Where the parts of the two frames lie.
data_apart :
    (tx rx hl total : ℕ)
    → hl + 12 ≤ total
    → AreDisjoint tx rx (14 + total)
    → AreDisjoint (tx + (14 + hl) + 8) (rx + (14 + hl) + 8) (total - hl - 8)
      × AreDisjoint (tx + (14 + hl)) (rx + (14 + hl)) (total - hl)
data_apart tx rx hl total whole apart = ground arith

lengths :
    (hl total : ℕ)
    → hl + 12 ≤ total
    → total < 2 ^ 16
    → (u32 (total + 2 ^ 32 - hl) ≡ total - hl) × (u32 (total + 2 ^ 32 - hl - 8) ≡ total - hl - 8)
lengths hl total whole small = (omega arith, omega arith)

request_kept :
    (tx rx hl total a : ℕ)
    → 20 ≤ hl
    → hl + 12 ≤ total
    → AreDisjoint tx rx (14 + total)
    → rx + (14 + hl) ≤ a
    → a < rx + (14 + hl) + (total - hl)
    → ((a < tx + 14) ⊎ (tx + 14 + 20 ≤ a)) × ((a < tx) ⊎ (tx + 14 ≤ a))
request_kept tx rx hl total a long whole apart lo hi = ground arith

module _ (mac_addr : EthAddr) (m M₁ M₂ : Memory) (rx tx hl l csum : ℕ) where
  abbrev q : ℕ
  q = rx + (14 + hl)

  abbrev start : ℕ
  start = tx + (14 + hl)

  abbrev M₃ : Memory
  M₃ = store_all M₂ start (reply_header m q)

  abbrev M₄ : Memory
  M₄ = memcpy (start + 8) (q + 8) (l - 8) M₃

  -- From the header of IP on, the frame is completed.
  completed :
      12 ≤ l
      → l < 2 ^ 16
      → 20 ≤ hl
      → ((a : ℕ) → m a < 256)
      → ((a : ℕ) → M₂ a < 256)
      → AreDisjoint (start + 8) (q + 8) (l - 8) × AreDisjoint start q l
      → ((a : ℕ) → q ≤ a → a < q + l → M₂ a ≡ m a)
      → ((a : ℕ) → a < tx + 14 → M₂ a ≡ M₁ a)
      → eth_demangle M₁ tx ≡ eth_reply mac_addr (eth_demangle m rx)
      → ip_demangle M₂ (tx + 14)
        ≡ record (ip_reply (ip_demangle m (rx + 14))) { header_checksum = csum }
      → proto_checksum M₂ (tx + 14) hl ≡ some 0
      → (s : ℕ) × (proto_checksum M₄ start l ≡ some s)
        × IsEchoReply mac_addr m (store_all M₄ (start + 2) (put_two s)) rx tx hl l
  completed whole small long bytes bytes₂ (apart, apart') same front eth ip verified =
      let copies : (a : ℕ) → M₄ a ≡ copied M₃ (start + 8) (q + 8) (l - 8) a =
        memcpy_copies (start + 8) (q + 8) (l - 8) M₃ (omega arith) apart (inl (omega arith)) in
      let (ans, below) = answered m M₂ M₄ q start l whole apart' same copies in
      let bytes₃ =
        store_all_bytes M₂ start (reply_header m q) bytes₂ (reply_header-bytes m q bytes) in
      let bytes₄ : (a : ℕ) → M₄ a < 256 =
        λ a. rw (copies a) (copied-bytes M₃ (start + 8) (q + 8) (l - 8) a bytes₃) in
      let (r, computed, folded) = proto_checksum_lem M₄ start l bytes₄ small in
      let s = 65535 - r in
      let M = store_all M₄ (start + 2) (put_two s) in
      let early : (a : ℕ) → a < start → M a ≡ M₂ a =
        λ a h. store_all_outside M₄ (start + 2) (put_two s) a (inl (omega arith)) ∙ below a h in
      (
        s,
        computed,
        record {
          csum = csum;
          ethernet =
              eth_demangle-same M M₁ tx 14 (λ a lo hi. early a (omega arith) ∙ front a hi)
                (omega arith)
              ∙ eth;
          ip =
              ip_demangle-same M M₂ (tx + 14) 20 (λ a lo hi. early a (omega arith)) (omega arith)
              ∙ ip;
          ip_verifies =
              proto_checksum-same hl M M₂ (tx + 14) (λ a lo hi. early a (omega arith)) ∙ verified;
          icmp_type =
              store_all_outside M₄ (start + 2) (put_two s) start (inl (omega arith)) ∙ ans.type;
          icmp_code =
              store_all_outside M₄ (start + 2) (put_two s) (start + 1) (inl (omega arith))
              ∙ ans.code;
          icmp_rest = λ j lo hi.
              store_all_outside M₄ (start + 2) (put_two s) (start + j) (inr (omega arith))
              ∙ ans.rest j lo hi;
          icmp_verifies =
              filled_checksum M₄ start l 1 (start + 2) s (omega arith) bytes₄ small (omega arith)
                (ans.sum_high, ap M₄ (omega arith) ∙ ans.sum_low) (omega arith) computed;
        },
      )

-- The frame that echo_frame builds, for a request of ICMP with four bytes of data or more, in buffers that do
-- not overlap.
pub echo_frame-replies :
    (mac_addr : EthAddr) (m : Memory) (rx tx : ℕ)
    → ((a : ℕ) → m a < 256)
    → IsMac mac_addr
    → m (rx + (14 + header_length (ip_demangle m (rx + 14))) + 0) ≡ 8
    → 20 ≤ header_length (ip_demangle m (rx + 14))
    → header_length (ip_demangle m (rx + 14)) + 12 ≤ (ip_demangle m (rx + 14)).total_length
    → AreDisjoint tx rx (14 + (ip_demangle m (rx + 14)).total_length)
    → (M : Memory) × (echo_frame mac_addr
          (eth_demangle m rx)
          (ip_demangle m (rx + 14))
          (icmp_demangle m (rx + (14 + header_length (ip_demangle m (rx + 14)))))
          rx
          tx
          m
        ≡ some M)
      × IsEchoReply mac_addr m M rx tx
          (header_length (ip_demangle m (rx + 14)))
          ((ip_demangle m (rx + 14)).total_length - header_length (ip_demangle m (rx + 14)))
unfolding echo_frame
echo_frame-replies mac_addr m rx tx bytes mac request long whole apart =
    let ip = ip_demangle m (rx + 14) in
    let hl = header_length ip in
    let l = ip.total_length - hl in
    let eth = eth_demangle m rx in
    let q = rx + (14 + hl) in
    let start = tx + (14 + hl) in
    let fits = ip_reply-Fits m (rx + 14) bytes in
    let small : ip.total_length < 2 ^ 16 = fits.total_length in
    let M₁ = eth_mangle (eth_reply mac_addr eth) m tx in
    let bytes₁ = eth_mangle-bytes mac_addr m rx tx mac bytes in
    let (read_eth, outside₁) = eth_back (eth_reply mac_addr eth) m tx (eth_type-lt m rx bytes) in
    let (csum, M₂, filled, read_ip, verified, bytes₂, outside₂) =
      ip_mangle_verifies (ip_reply ip) M₁ (tx + 14) fits bytes₁ refl (omega arith) in
    let (s, computed, reply) =
      completed mac_addr m M₁ M₂ rx tx hl l csum (omega arith) (omega arith) long bytes bytes₂
        (data_apart tx rx hl ip.total_length whole apart)
        (λ a lo hi.
          let (in₂, in₁) = request_kept tx rx hl ip.total_length a long whole apart lo hi in
          outside₂ a in₂ ∙ outside₁ a in₁)
        (λ a h. outside₂ a (inl h)) read_eth read_ip verified in
    let (whole_length, data_length) = lengths hl ip.total_length whole small in
    let header = icmp_mangle-reply m M₂ q start bytes request in
    (_, rw (filled, header, data_length, whole_length, computed) refl, reply)
