-- ===== src/Responder/Requests.antt =====
-- What is read from a frame of bytes.
use rflpc.Base.{ℕ, ◌+◌, ◌^◌, ◌<◌, ◌≤◌, ◌≡◌, bit_or, ap₂, arith}
use rflpc.Base.Bits.{bit_or-lt}
use rflpc.Base.Word.{u16, u32, shl}
use rflpc.Base.Memory.{Memory}
use rflpc.Protocols.Fields.{get_two, get_four, get_mac}
use rflpc.Protocols.Headers.{eth_demangle}
use rflpc.Protocols.Ip.{ip_demangle}

-- Two memories with the same bytes from `p` on, `n` of them.
abbrev pub AreSame : Memory → Memory → ℕ → ℕ → Type 0
AreSame m m' p n = (a : ℕ) → p ≤ a → a < p + n → m a ≡ m' a

pub get_two-lt : (m : Memory) (p i : ℕ) → ((b : ℕ) → m b < 256) → get_two m p i < 2 ^ 16
unfolding get_two
get_two-lt m p i bytes = bit_or-lt 16 _ _ (omega arith) (omega (arith, bytes (p + (i + 1))))

pub get_four-lt : (m : Memory) (p i : ℕ) → ((b : ℕ) → m b < 256) → get_four m p i < 2 ^ 32
unfolding get_four
get_four-lt m p i bytes =
    bit_or-lt 32 _ _
      (bit_or-lt 32 _ _ (bit_or-lt 32 _ _ (omega arith) (omega (arith, bytes (p + (i + 1)))))
        (omega (arith, bytes (p + (i + 2)))))
      (omega (arith, bytes (p + (i + 3))))

module _ (m m' : Memory) (p n : ℕ) (same : AreSame m m' p n) where
  pub get_two-same : (i : ℕ) → i + 2 ≤ n → get_two m p i ≡ get_two m' p i
  unfolding get_two
  get_two-same i h =
      ap₂ (λ a b. bit_or (u16 (shl a 8)) b) (same (p + i) (omega arith) (omega arith))
        (same (p + (i + 1)) (omega arith) (omega arith))

  pub get_four-same : (i : ℕ) → i + 4 ≤ n → get_four m p i ≡ get_four m' p i
  unfolding get_four
  get_four-same i h =
      ap₂ bit_or
        (ap₂ (λ a b. bit_or a (shl b 8))
          (ap₂ (λ a b. bit_or (u32 (shl a 24)) (shl b 16))
            (same (p + i) (omega arith) (omega arith))
            (same (p + (i + 1)) (omega arith) (omega arith)))
          (same (p + (i + 2)) (omega arith) (omega arith)))
        (same (p + (i + 3)) (omega arith) (omega arith))

  pub get_mac-same : (i : ℕ) → i + 6 ≤ n → get_mac m p i ≡ get_mac m' p i
  unfolding get_mac
  get_mac-same i h = λ k. record {
    addr0 = same (p + i) (omega arith) (omega arith) k;
    addr1 = same (p + (i + 1)) (omega arith) (omega arith) k;
    addr2 = same (p + (i + 2)) (omega arith) (omega arith) k;
    addr3 = same (p + (i + 3)) (omega arith) (omega arith) k;
    addr4 = same (p + (i + 4)) (omega arith) (omega arith) k;
    addr5 = same (p + (i + 5)) (omega arith) (omega arith) k;
  }

  pub eth_demangle-same : 14 ≤ n → eth_demangle m p ≡ eth_demangle m' p
  unfolding eth_demangle
  eth_demangle-same h = λ k. record {
    dst = get_mac-same 0 (omega arith) k;
    src = get_mac-same 6 (omega arith) k;
    type = get_two-same 12 (omega arith) k;
  }

  pub ip_demangle-same : 20 ≤ n → ip_demangle m p ≡ ip_demangle m' p
  unfolding ip_demangle
  ip_demangle-same h = λ k. record {
    version_length = same (p + 0) (omega arith) (omega arith) k;
    dscp_ecn = same (p + 1) (omega arith) (omega arith) k;
    total_length = get_two-same 2 (omega arith) k;
    identification = get_two-same 4 (omega arith) k;
    flags_frag_offset = get_two-same 6 (omega arith) k;
    ttl = same (p + 8) (omega arith) (omega arith) k;
    protocol = same (p + 9) (omega arith) (omega arith) k;
    header_checksum = get_two-same 10 (omega arith) k;
    src_addr = get_four-same 12 (omega arith) k;
    dst_addr = get_four-same 16 (omega arith) k;
  }
