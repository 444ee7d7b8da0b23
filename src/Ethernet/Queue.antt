-- ===== src/Ethernet/Queue.antt =====
-- The ring of received packets, shared by the Ethernet block and the driver, as a queue of frames.
use mathlib.Core.List.{append_assoc, append-nil}
use rflpc.Base.{
  ℕ, zero, suc, true, false, ◌+◌, ◌-◌, ◌<◌, ◌≤◌, ◌==◌, if◌then◌else◌, leb, List, [], ◌∷◌, ◌++◌, ◌≡◌,
  refl, sym, ap, ap₂, ◌∙◌, arith,
}
use rflpc.Base.Word.{set_bit}
use rflpc.Ethernet.{Emac, rx_available, done_process_rx_packet}
use rflpc.Ethernet.Receive.{IsRxValid, rx_pending, rx_done_takes_one}

-- The block's registers and the frame in the buffer of each descriptor.
pub record Ring {ℓ} (A : Type ℓ) : Type ℓ where
  pub emac : Emac
  pub frame : ℕ → A

-- The index after `i` in a ring whose last index is `n`, and the index `k` places after `i`.
abbrev pub next : ℕ → ℕ → ℕ
next n i = if i == n then 0 else i + 1

abbrev pub position : ℕ → ℕ → ℕ → ℕ
position n i k = if leb (i + k) n then i + k else i + k - (n + 1)

-- What happens to the ring: the block receives a frame, or the driver has processed the one at its index.
pub data Event {ℓ} (A : Type ℓ) : Type ℓ where
  received processed : A → Event A

produce_position :
    (e : Emac)
    → IsRxValid e
    → position e.rx_descriptor_number e.rx_consume_index (rx_pending e) ≡ e.rx_produce_index
produce_position e v = ground (arith, v.number, v.produce, v.consume)

arrive_counts :
    (e : Emac)
    → IsRxValid e
    → rx_pending e < e.rx_descriptor_number
    → let e' = record e {
      rx_produce_index = next e.rx_descriptor_number e.rx_produce_index;
      int_status = set_bit e.int_status 3;
    } in
      IsRxValid e' × (rx_pending e' ≡ suc (rx_pending e))
arrive_counts e v l = ground (arith, v.number, v.produce, v.consume)

pub process_counts :
    (e : Emac)
    → IsRxValid e
    → rx_available e ≡ true
    → (rx_pending e ≡ suc (rx_pending (done_process_rx_packet e)))
      × ((done_process_rx_packet e).rx_consume_index
          ≡ next e.rx_descriptor_number e.rx_consume_index)
      × ((done_process_rx_packet e).rx_descriptor_number ≡ e.rx_descriptor_number)
unfolding rx_available done_process_rx_packet
process_counts e v a = ground (arith, v.number, v.produce, v.consume)

module _ {ℓ} {A : Type ℓ} where
  abbrev pub replace : (ℕ → A) → ℕ → A → ℕ → A
  replace frame p a i = if i == p then a else frame i

  -- The frames of `k` descriptors from `i` on.
  unfoldable pub collect : (ℕ → A) → ℕ → ℕ → ℕ → List A
  collect frame n i zero = []
  collect frame n i (suc k) = frame i ∷ collect frame n (next n i) k

  -- A frame is put after the last one, and the ones before are untouched.
  collect-replace :
      (frame : ℕ → A) (n i k : ℕ) (a : A)
      → i ≤ n
      → k ≤ n
      → collect (replace frame (position n i k) a) n i (suc k) ≡ collect frame n i k ++ a ∷ []
  unfolding collect
  collect-replace frame n i zero a hi hk =
      let here : (i == position n i 0) ≡ true = ground arith in rw (here, collect) refl
  collect-replace frame n i (suc k) a hi hk =
      let apart : (i == position n i (suc k)) ≡ false = ground arith in
      let same : position n i (suc k) ≡ position n (next n i) k = ground arith in
      ap₂ ◌∷◌ (ap (λ b. if b then a else frame i) apart) (
        ap (λ p. collect (replace frame p a) n (next n i) (suc k)) same
        ∙ collect-replace frame n (next n i) k a (ground arith) (omega arith))

  -- The frames that wait, the oldest first.
  unfoldable pub queue : Ring A → List A
  unfolding collect
  queue r = collect r.frame r.emac.rx_descriptor_number r.emac.rx_consume_index (rx_pending r.emac)

  -- The manual: while the ring is not full the block stores a frame at its index, moves on, and asks for the
  -- interrupt RX_DONE, bit 3 of the interrupt status.
  pub data Step (r r' : Ring A) : Event A → Type ℓ where
    arrive :
        (a : A)
        → rx_pending r.emac < r.emac.rx_descriptor_number
        → r' ≡ record {
          emac = record r.emac {
            rx_produce_index = next r.emac.rx_descriptor_number r.emac.rx_produce_index;
            int_status = set_bit r.emac.int_status 3;
          };
          frame = replace r.frame r.emac.rx_produce_index a;
        }
        → Step r r' (received a)
    process :
        rx_available r.emac ≡ true
        → r' ≡ record r { emac = done_process_rx_packet r.emac }
        → Step r r' (processed (r.frame r.emac.rx_consume_index))

  -- The queue by itself.
  pub data QueueStep (q q' : List A) : Event A → Type ℓ where
    enqueue : (a : A) → q' ≡ q ++ a ∷ [] → QueueStep q q' (received a)
    dequeue : (a : A) → q ≡ a ∷ q' → QueueStep q q' (processed a)

  pub data Run : Ring A → List (Event A) → Ring A → Type ℓ where
    stop : (r : Ring A) → Run r [] r
    more :
        {r r₁ r' : Ring A} {event : Event A} {events : List (Event A)}
        → Step r r₁ event
        → Run r₁ events r'
        → Run r (event ∷ events) r'

  abbrev pub frames_received : List (Event A) → List A
  frames_received [] = []
  frames_received (received a ∷ events) = a ∷ frames_received events
  frames_received (processed a ∷ events) = frames_received events

  abbrev pub frames_processed : List (Event A) → List A
  frames_processed [] = []
  frames_processed (received a ∷ events) = frames_processed events
  frames_processed (processed a ∷ events) = a ∷ frames_processed events

  -- Each step of the ring is the step of a queue with the same event, and the indices stay inside the ring.
  pub Step-refines :
      (r r' : Ring A) {event : Event A}
      → IsRxValid r.emac
      → Step r r' event
      → IsRxValid r'.emac × QueueStep (queue r) (queue r') event
  unfolding queue collect
  Step-refines r r' v (arrive a l e) =
      let n = r.emac.rx_descriptor_number in
      let c = r.emac.rx_consume_index in
      let (v', count) = arrive_counts r.emac v l in
      rw e (
        v',
        enqueue a (
            ap₂ (λ p k. collect (replace r.frame p a) n c k) (sym (produce_position r.emac v)) count
            ∙ collect-replace r.frame n c (rx_pending r.emac) a v.consume (omega arith)),
      )
  Step-refines r r' v (process a e) =
      let n = r.emac.rx_descriptor_number in
      let (count, moved, same) = process_counts r.emac v a in
      rw e (
        (rx_done_takes_one r.emac v).0,
        dequeue (r.frame r.emac.rx_consume_index) (
            ap (collect r.frame n r.emac.rx_consume_index) count
            ∙ ap (λ q. r.frame r.emac.rx_consume_index ∷ q)
                (sym (
                  ap₂ (λ m i. collect r.frame m i (rx_pending (done_process_rx_packet r.emac))) same
                    moved))),
      )

  QueueStep-fifo :
      (q q₁ last : List A) {event : Event A} (events : List (Event A))
      → QueueStep q q₁ event
      → q₁ ++ frames_received events ≡ frames_processed events ++ last
      → q ++ frames_received (event ∷ events) ≡ frames_processed (event ∷ events) ++ last
  QueueStep-fifo q q₁ last events (enqueue a e) h =
      sym (append_assoc q (a ∷ []) (frames_received events))
      ∙ ap (λ t. t ++ frames_received events) (sym e)
      ∙ h
  QueueStep-fifo q q₁ last events (dequeue a e) h = rw e (ap (λ t. a ∷ t) h)

  -- Whatever the order in which frames arrive and are processed: the frames that waited, followed by those
  -- received since, are those processed since, followed by those that wait, and the indices stay inside the ring.
  pub Run-fifo :
      {r r' : Ring A} {events : List (Event A)}
      → IsRxValid r.emac
      → Run r events r'
      → IsRxValid r'.emac
        × (queue r ++ frames_received events ≡ frames_processed events ++ queue r')
  Run-fifo v (stop r) = (v, append-nil (queue r))
  Run-fifo v (more {r = r} {r₁ = r₁} {r' = r'} {events = events} step run) =
      let (v₁, q) = Step-refines r r₁ v step in
      let (v', h) = Run-fifo v₁ run in
      (v', QueueStep-fifo (queue r) (queue r₁) (queue r') events q h)
