-- ===== src/Ethernet/Transmit.antt =====
-- The ring of packets to transmit as a queue.
use native.Mathlib.Nat.{mod-eq_of_lt, mod-eq-sub-mod}
use rflpc.Base.{ℕ, ◌+◌, ◌-◌, ◌^◌, ◌<◌, ◌≤◌, ◌==◌, if◌then◌else◌, leb, ◌≡◌, arith}
use rflpc.Base.Word.{u32}
use rflpc.Ethernet.{Emac, tx_produce_index_inc, tx_full, done_process_tx_packet}

-- The indices stand inside the ring.
pub record IsTxValid (e : Emac) : Type 0 where
  pub number : e.tx_descriptor_number < 2 ^ 16
  pub produce : e.tx_produce_index ≤ e.tx_descriptor_number
  pub consume : e.tx_consume_index ≤ e.tx_descriptor_number

-- The number of packets that the hardware has still to send. At most as many as the ring has
-- descriptors less one, since equal indices say that the queue is empty.
abbrev pub tx_pending : Emac → ℕ
tx_pending e =
    if leb e.tx_consume_index e.tx_produce_index
    then e.tx_produce_index - e.tx_consume_index
    else e.tx_produce_index + (e.tx_descriptor_number + 1) - e.tx_consume_index

abbrev pub tx_free : Emac → ℕ
tx_free e = e.tx_descriptor_number - tx_pending e

inc_wraps :
    (e : Emac) (inc : ℕ)
    → IsTxValid e
    → inc ≤ e.tx_descriptor_number
    → tx_produce_index_inc e inc ≡ (
        if leb (e.tx_produce_index + inc) e.tx_descriptor_number
        then e.tx_produce_index + inc
        else e.tx_produce_index + inc - (e.tx_descriptor_number + 1))
unfolding tx_produce_index_inc
inc_wraps e inc v h =
    let x = e.tx_produce_index + inc in
    let n = e.tx_descriptor_number + 1 in
    let word : u32 x ≡ x = omega (arith, v.number, v.produce) in
    rw word (
      ground (
        arith,
        v.produce,
        λ (p : x < n). mod-eq_of_lt {n = x} {m = n} p,
        λ (p : n ≤ x). mod-eq-sub-mod {n = x} {m = n} p,
        λ (p : x - n < n). mod-eq_of_lt {n = x - n} {m = n} p,
      ))

-- For an offset inside the ring, the test for a full queue is true at exactly one offset: the number of
-- free descriptors.
pub tx_full_iff_last :
    (e : Emac) (idx : ℕ)
    → IsTxValid e
    → idx ≤ e.tx_descriptor_number
    → tx_full e idx ≡ (idx == tx_free e)
unfolding tx_full
tx_full_iff_last e idx v h = ground (arith, inc_wraps e idx v h, v.number, v.produce, v.consume)

-- Handing over `count` packets (0 < count): if so many descriptors are free, they are all pending afterwards
-- and the indices stay inside the ring; if one more is asked for than are free, nothing changes.
pub tx_done_hands_over :
    (e : Emac) (count : ℕ)
    → IsTxValid e
    → 0 < count
    → count ≤ tx_free e + 1
    → IsTxValid (done_process_tx_packet count e)
      × (tx_pending (done_process_tx_packet count e)
          ≡ (if leb count (tx_free e) then tx_pending e + count else tx_pending e))
unfolding done_process_tx_packet
tx_done_hands_over e count v pos room =
    let last : u32 (count + (2 ^ 32 - 1)) ≡ count - 1 = omega (arith, v.number) in
    rw last (
      ground (
        arith,
        tx_full_iff_last e (count - 1) v (omega arith),
        λ (p : count ≤ e.tx_descriptor_number). inc_wraps e count v p,
        v.number,
        v.produce,
        v.consume,
      ))

-- The test is for equality only: handing over more packets than one beyond those that are free, though no
-- more than the ring has descriptors less one, moves the index over the hardware's, and a whole ring
-- of pending packets is lost from the count.
pub tx_done_overruns :
    (e : Emac) (count : ℕ)
    → IsTxValid e
    → tx_free e + 1 < count
    → count ≤ e.tx_descriptor_number
    → tx_pending (done_process_tx_packet count e) + (e.tx_descriptor_number + 1)
      ≡ tx_pending e + count
unfolding done_process_tx_packet
tx_done_overruns e count v over room =
    let last : u32 (count + (2 ^ 32 - 1)) ≡ count - 1 = omega (arith, v.number) in
    rw last (
      ground (
        arith,
        tx_full_iff_last e (count - 1) v (omega arith),
        inc_wraps e count v room,
        v.number,
        v.produce,
        v.consume,
      ))
