-- ===== src/SimpleNet/Handler.antt =====
-- eth_handler of samples/dhcp/simple_net.c against the queue of frames.
use rflpc.Base.{
  ℕ, zero, suc, true, false, ◌+◌, ◌*◌, ◌^◌, ◌<◌, ◌==◌, bit_and, List, [], ◌∷◌, ◌++◌, Option, some,
  none, ◌≡◌, ◌≢◌, ◌⊎◌, refl, sym, ap, ap₂, ◌∙◌, Bool-cases, inl, inr, arith,
}
use rflpc.Base.Bits.{bit_at}
use rflpc.Base.Word.{bit_and_not, bit_at-set_bit}
use rflpc.Ethernet.{
  Emac, rx_available, get_current_rx_packet_descriptor, done_process_rx_packet, irq_get_status,
  irq_clear,
}
use rflpc.Ethernet.Receive.{IsRxValid, rx_pending, rx_done_takes_one}
use rflpc.Ethernet.Queue.{
  Ring, received, Step, arrive, QueueStep, enqueue, Step-refines, queue, next, collect,
  process_counts,
}
use rflpc.SimpleNet.{
  irq_en_rx_done, Net, Callback, called, serve_frame, serve, drain, clear_pending, eth_handler_with,
}

-- What a callback must leave alone: the indices of the received frames.
pub record KeepsRx (e e' : Emac) : Type 0 where
  pub number : e'.rx_descriptor_number ≡ e.rx_descriptor_number
  pub produce : e'.rx_produce_index ≡ e.rx_produce_index
  pub consume : e'.rx_consume_index ≡ e.rx_consume_index

kept :
    (e e' : Emac)
    → KeepsRx e e'
    → IsRxValid e
    → IsRxValid e' × (rx_pending e ≡ rx_pending e') × (rx_available e ≡ rx_available e')
unfolding rx_available
kept e e' k v = ground (arith, k.number, k.produce, k.consume, v.number, v.produce, v.consume)

available_cases :
    (e : Emac)
    → IsRxValid e
    → ((rx_available e ≡ false) × (get_current_rx_packet_descriptor e ≡ none) × (rx_pending e ≡ 0))
      ⊎ ((d : ℕ × ℕ) × (rx_available e ≡ true)
          × (get_current_rx_packet_descriptor e ≡ some d)
          × (rx_pending e ≢ 0))
unfolding rx_available get_current_rx_packet_descriptor
available_cases e v = elim (Bool-cases (e.rx_consume_index == e.rx_produce_index)) [
  | inl t ↦ inl (rw t refl, rw t refl, ground arith)
  | inr t ↦ inr (
    (e.rx_descriptor + e.rx_consume_index * 8, e.rx_status + e.rx_consume_index * 8),
    rw t refl,
    rw t refl,
    ground (arith, v.produce),
  )
]

waits : {A : Type 0} {a : A} (q q' : List A) → q ≡ [] → QueueStep q q' (received a) → q' ≡ a ∷ []
waits q q' e (enqueue a e') = e' ∙ ap (λ t. t ++ a ∷ []) e

no_frames : {A : Type 0} (r : Ring A) → rx_pending r.emac ≡ 0 → queue r ≡ []
unfolding queue collect
no_frames r e = rw e refl

arrival_asks :
    {A : Type 0} (r r' : Ring A) (frame : A)
    → Step r r' (received frame)
    → bit_at r'.emac.int_status 3 ≡ 1
arrival_asks {A = A} r r' frame (arrive a l e) =
    ap (λ (x : Ring A). bit_at x.emac.int_status 3) e
    ∙ ground (arith, bit_at-set_bit r.emac.int_status 3 3)

module _ {A S : Type 0} where
  -- The callback called on each frame of a list, each call followed by rflpc_eth_done_process_rx_packet.
  unfoldable pub serve_all : Option (Callback A S) → List A → Net A S → Net A S
  serve_all callback [] n = n
  serve_all callback (frame ∷ frames) n = serve_all callback frames (serve_frame callback frame n)

  cleared_queue : (n : Net A S) → queue (clear_pending n).ring ≡ queue n.ring
  unfolding queue irq_clear
  cleared_queue n = refl

  module _ (callback : Option (Callback A S))
      (keeps : (frame : A) (e : Emac) (w : S) → KeepsRx e (called callback frame e w).0) where
    serve_takes_one :
        (n : Net A S)
        → IsRxValid n.ring.emac
        → rx_available n.ring.emac ≡ true
        → IsRxValid (serve callback n).ring.emac
          × (queue n.ring
              ≡ n.ring.frame n.ring.emac.rx_consume_index ∷ queue (serve callback n).ring)
          × (rx_pending n.ring.emac ≡ suc (rx_pending (serve callback n).ring.emac))
    unfolding serve serve_frame queue collect
    serve_takes_one n v a =
        let c = n.ring.emac.rx_consume_index in
        let e = (called callback (n.ring.frame c) n.ring.emac n.world).0 in
        let k = keeps (n.ring.frame c) n.ring.emac n.world in
        let (v', p, a') = kept n.ring.emac e k v in
        let (count, moved, same) = process_counts e v' (sym a' ∙ a) in
        (
          (rx_done_takes_one e v').0,
          ap (collect n.ring.frame n.ring.emac.rx_descriptor_number c) (p ∙ count)
              ∙ ap (λ q. n.ring.frame c ∷ q)
                  (ap₂ (λ m i. collect n.ring.frame m i (rx_pending (done_process_rx_packet e)))
                    (sym k.number ∙ sym same)
                    (ap₂ next (sym k.number) (sym k.consume) ∙ sym moved)),
          p ∙ count,
        )

    drain_serves :
        (fuel : ℕ) (n : Net A S)
        → IsRxValid n.ring.emac
        → rx_pending n.ring.emac < fuel
        → (drain fuel callback n ≡ some (serve_all callback (queue n.ring) n))
          × IsRxValid (serve_all callback (queue n.ring) n).ring.emac
          × (rx_pending (serve_all callback (queue n.ring) n).ring.emac ≡ 0)
    unfolding drain serve serve_all queue
    drain_serves zero n v l = absurd (omega arith)
    drain_serves (suc fuel) n v l = elim (available_cases n.ring.emac v) [
      | inl (a, d, p) ↦
          let none_left : queue n.ring ≡ [] =
            ap (collect n.ring.frame n.ring.emac.rx_descriptor_number n.ring.emac.rx_consume_index)
              p in
          rw none_left (rw (d, drain) refl, v, p)
      | inr (d, a, s, p) ↦
          let (v₁, q, count) = serve_takes_one n v a in
          let (run, v', empty) = drain_serves fuel (serve callback n) v₁ (omega arith) in
          rw q (rw (s, drain) run, v', empty)
    ]

    -- When RX_DONE is pending and a frame arrives after the test that ends the handler's loop, and before the
    -- handler clears the interrupts, the frame has asked for RX_DONE, and when the handler is done it waits alone
    -- with no interrupt pending. The indices stand inside the ring, no other frame arrives meanwhile, fuel is given
    -- for the frames that wait, and the callback leaves the indices of the received frames alone.
    pub eth_handler-misses :
        (late : Net A S → Net A S) (fuel : ℕ) (n : Net A S) (frame : A)
        → IsRxValid n.ring.emac
        → rx_pending n.ring.emac < fuel
        → (bit_and (irq_get_status n.ring.emac) irq_en_rx_done == 0) ≡ false
        → let n₁ = serve_all callback (queue n.ring) n in
          Step n₁.ring (late n₁).ring (received frame)
          → (late n₁).ring.emac.int_status < 2 ^ 32
          → (bit_at (late n₁).ring.emac.int_status 3 ≡ 1)
            × (n' : Net A S) × (eth_handler_with late fuel callback n ≡ some n')
            × (queue n'.ring ≡ frame ∷ [])
            × (irq_get_status n'.ring.emac ≡ 0)
    unfolding eth_handler_with irq_clear irq_get_status
    eth_handler-misses late fuel n frame v l raised step small =
        let n₁ = serve_all callback (queue n.ring) n in
        let (run, v', empty) = drain_serves fuel n v l in
        let alone : queue (late n₁).ring ≡ frame ∷ [] =
          waits (queue n₁.ring) (queue (late n₁).ring) (no_frames n₁.ring empty)
            (Step-refines n₁.ring (late n₁).ring v' step).1 in
        (
          arrival_asks n₁.ring (late n₁).ring frame step,
          clear_pending (late n₁),
          rw (raised, run) refl,
          cleared_queue (late n₁) ∙ alone,
          bit_and_not (late n₁).ring.emac.int_status small,
        )
