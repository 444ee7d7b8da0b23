-- ===== src/Dma/Transfer.antt =====
-- What a started channel does, as the manual says it for byte transfers from memory to memory, and what a start
-- gives.
use rflpc.Base.{
  ℕ, zero, suc, ◌+◌, ◌-◌, ◌%◌, ◌^◌, ◌≤◌, ◌<◌, ◌==◌, if◌then◌else◌, ltb, ◌&&◌, Option, some, none,
  true, false, bit_and, bit_or, ◌≡◌, refl, ap, ◌∙◌, Bool-cases, inl, inr, arith,
}
use native.Mathlib.Nat.{add-zero, one-le-pow}
use rflpc.Base.Bits.{eq_of_bits, bit_at, bit_at-lt, bit_at-bit_or, bit_and-mask}
use rflpc.Base.Word.{shl, set_bit, bit_at-mod, bit_at-set_bit, bit_at-shl_one, bit_and-shl_one}
use rflpc.Base.Memory.{Memory, store}
use rflpc.Tinylibc.Memcpy.Step.{copied, AreDisjoint}
use rflpc.Dma.{
  Dma, dma_start, channel_ready, get_chan, on_chan, clear_tc, clear_err, set_channel_lli,
  set_channel_control, set_channel_config,
}

-- Bits 0 to 11 of the control register are the number of bytes, bits 26 and 27 say whether the source and the
-- destination move on.
unfoldable pub move_bytes : ℕ → ℕ → ℕ → ℕ → ℕ → Memory → Memory
move_bytes zero src dest s_inc d_inc m = m
move_bytes (suc n) src dest s_inc d_inc m =
    move_bytes n (src + s_inc) (dest + d_inc) s_inc d_inc (store m dest (m src))

-- The bytes move when the controller and the channel are enabled. There is no result where a list item follows.
unfoldable pub transfer : Dma → ℕ → Memory → Option Memory
unfolding move_bytes
transfer d channel m =
    let c = d.channels channel in
    if bit_at d.dma_config 0 == 1 && bit_at c.config 0 == 1
    then (if c.lli == 0
        then some (
            move_bytes (c.control % 2 ^ 12) c.src_addr c.dest_addr (bit_at c.control 26)
              (bit_at c.control 27) m)
        else none)
    else some m

shl_one-pos : (n : ℕ) → 0 < shl 1 n
shl_one-pos n = omega (arith, one-le-pow n 2)

move_bytes-copied :
    (m m' : Memory) (d s total k n : ℕ)
    → AreDisjoint d s total
    → n + k ≤ total
    → ((a : ℕ) → m' a ≡ copied m d s n a)
    → (a : ℕ) → move_bytes k (s + n) (d + n) 1 1 m' a ≡ copied m d s (n + k) a
unfolding move_bytes
move_bytes-copied m m' d s total zero n apart h i a = rw add-zero (i a)
move_bytes-copied m m' d s total (suc k) n apart h i a =
    let e : n + suc k ≡ n + 1 + k = omega arith in
    let es : s + n + 1 ≡ s + (n + 1) = omega arith in
    let ed : d + n + 1 ≡ d + (n + 1) = omega arith in
    rw (e, es, ed)
      (move_bytes-copied m (store m' (d + n) (m' (s + n))) d s total k (n + 1) apart (omega arith)
        (λ x. ground (arith, i x, i (s + n))) a)

abbrev control_of : ℕ → ℕ
control_of size = bit_or (bit_or (bit_and (size % 2 ^ 16) 0xfff) (shl 1 26)) (shl 1 27)

control_bits :
    (size k : ℕ)
    → bit_at (control_of size) k
      ≡ (if k == 26 then 1 else if k == 27 then 1 else bit_at (size % 2 ^ 12) k)
control_bits size k =
    let small : bit_and (size % 2 ^ 16) (2 ^ 12 - 1) ≡ size % 2 ^ 12 =
      omega (arith, bit_and-mask 12 (size % 2 ^ 16)) in
    rw small (
      ground (
        arith,
        bit_at-bit_or (bit_or (size % 2 ^ 12) (shl 1 26)) (shl 1 27) k,
        bit_at-bit_or (size % 2 ^ 12) (shl 1 26) k,
        bit_at-shl_one 26 k,
        bit_at-shl_one 27 k,
        bit_at-lt (size % 2 ^ 12) k,
      ))

control_size : (size : ℕ) → control_of size % 2 ^ 12 ≡ size % 2 ^ 12
control_size size =
    eq_of_bits 12 _ _ (omega arith) (omega arith)
      (λ k h. bit_at-mod 12 (control_of size) k h ∙ ground (arith, control_bits size k))

control_moves :
    (size dest src : ℕ) (m : Memory)
    → AreDisjoint dest src (size % 2 ^ 12)
    → (a : ℕ)
    → move_bytes
        (control_of size % 2 ^ 12)
        src
        dest
        (bit_at (control_of size) 26)
        (bit_at (control_of size) 27)
        m
        a
      ≡ copied m dest src (size % 2 ^ 12) a
control_moves size dest src m apart a =
    let es : src ≡ src + 0 = omega arith in
    let ed : dest ≡ dest + 0 = omega arith in
    rw (control_size size, control_bits size 26, control_bits size 27)
      (ap (λ s. move_bytes (size % 2 ^ 12) s dest 1 1 m a) es
        ∙ ap (λ t. move_bytes (size % 2 ^ 12) (src + 0) t 1 1 m a) ed
        ∙ move_bytes-copied m m dest src (size % 2 ^ 12) (size % 2 ^ 12) 0 apart (omega arith)
            (λ x. ground arith) a
        ∙ ap (λ n. copied m dest src n a) (omega arith))

-- With the controller enabled, as rflpc_dma_init leaves it, rflpc_dma_start on a free channel from 0 to 7 returns 1
-- and starts a transfer that copies a buffer to another one, which it does not overlap, and ends with it: all of the
-- buffer if it has fewer than 4096 bytes, and of a larger one as many bytes as the size leaves modulo 4096.
pub dma_start-copies :
    (shown_tc shown_err channel dest src size : ℕ) (d : Dma) (m : Memory)
    → channel < 8
    → bit_at d.enabled channel ≡ 0
    → bit_at d.dma_config 0 ≡ 1
    → AreDisjoint dest src (size % 2 ^ 12)
    → let r = dma_start shown_tc shown_err channel dest src size d in
      (r.0 ≡ 1)
      × (m' : Memory) × (transfer r.1 channel m ≡ some m')
      × ((a : ℕ) → m' a ≡ copied m dest src (size % 2 ^ 12) a)
unfolding dma_start channel_ready get_chan on_chan clear_tc clear_err set_channel_lli
    set_channel_control set_channel_config transfer
dma_start-copies shown_tc shown_err channel dest src size d m h free on apart =
    let ready : (bit_and d.enabled (shl 1 channel) == 0) ≡ true =
      ground (arith, bit_and-shl_one d.enabled channel) in
    let chan : ltb channel 8 ≡ true = ground arith in
    let self : (channel == channel) ≡ true = ground arith in
    rw (ready, chan, self) (refl, _, rw on refl, control_moves size dest src m apart)

module _ (shown_tc shown_err channel dest src size : ℕ) (d : Dma) where
  start_refused :
      (bit_and d.enabled (shl 1 channel) == 0) ≡ false
      → dma_start shown_tc shown_err channel dest src size d ≡ (0, d)
  unfolding dma_start channel_ready
  start_refused running = rw running refl

  start_absent :
      ltb channel 8 ≡ false → dma_start shown_tc shown_err channel dest src size d ≡ (0, d)
  unfolding dma_start channel_ready get_chan
  start_absent none_there = elim (Bool-cases (bit_and d.enabled (shl 1 channel) == 0)) [
    | inl ready ↦ rw (ready, none_there) refl
    | inr running ↦ start_refused running
  ]

  started_enabled :
      (bit_and d.enabled (shl 1 channel) == 0) ≡ true
      → ltb channel 8 ≡ true
      → (dma_start shown_tc shown_err channel dest src size d).1.enabled ≡ set_bit d.enabled channel
  unfolding dma_start channel_ready get_chan on_chan clear_tc clear_err set_channel_lli
      set_channel_control set_channel_config
  started_enabled ready chan = rw (ready, chan) refl

enabled_busy : (e channel : ℕ) → (bit_and (set_bit e channel) (shl 1 channel) == 0) ≡ false
enabled_busy e channel =
    let now : bit_at (set_bit e channel) channel ≡ 1 =
      ground (arith, bit_at-set_bit e channel channel) in
    ground (arith, bit_and-shl_one (set_bit e channel) channel, shl_one-pos channel)

-- While a channel runs, a second start on it returns 0 and changes nothing, whatever it asks for; so does a start on
-- a channel that does not exist. After a call of dma_start one of the two is the case.
pub dma_start-Excludes :
    (shown_tc shown_err channel dest src size other_dest other_src other_size : ℕ) (d : Dma)
    → let d' = (dma_start shown_tc shown_err channel dest src size d).1 in
      dma_start shown_tc shown_err channel other_dest other_src other_size d' ≡ (0, d')
dma_start-Excludes shown_tc shown_err channel dest src size other_dest other_src other_size d =
    let d' = (dma_start shown_tc shown_err channel dest src size d).1 in
    let again = start_refused shown_tc shown_err channel other_dest other_src other_size in
    elim (Bool-cases (bit_and d.enabled (shl 1 channel) == 0)) [
      | inl ready ↦ elim (Bool-cases (ltb channel 8)) [
        | inl chan ↦ again d' (
            rw (started_enabled shown_tc shown_err channel dest src size d ready chan)
              (enabled_busy d.enabled channel))
        | inr none_there ↦
            start_absent shown_tc shown_err channel other_dest other_src other_size d' none_there
      ]
      | inr running ↦
          rw (start_refused shown_tc shown_err channel dest src size d running) (again d running)
    ]
