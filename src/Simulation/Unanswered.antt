-- ===== src/Simulation/Unanswered.antt =====
-- sricd and ostric: a frame that the bus does not answer is sent again and again.
use sricd.Base.{
  ℕ, zero, suc, ◌-◌, ◌≤◌, ◌≡◌, ◌∙◌, ap, refl, Bool, true, false, List, [], ◌∷◌, some, arith, length,
  take, take-append,
}
use sricd.World.{World, Platform, Enumeration, TxFrame, Outcome, ok, ◌>>=◌, call, serial_write}
use sricd.SricIf.Ready.{sric_if_tx_ready}
use sricd.SricIf.Transmit.{expects_ack, if_tx, written, tx_timeout_fired}
use sricd.SricIf.Transmit.Retry.{newly_written, newly_written_lem, written_silent, sends_from_start}
use sricd.SricIf.Transmit.Wire.{wire_bytes}
use sricd.Ostric.{Bus}
use sricd.Simulation.{speak, hear, bus_round, exchange, offered_for}
use sricd.Simulation.Speaking.{sent, speak_lem, length-wire_bytes}
use sricd.Simulation.Answering.{quiet, Answers, bus_round_lem}
use sricd.Simulation.Exchange.{Ready}

-- The frame has been sent in full and waits for its acknowledgement.
pub record Unanswered (f : TxFrame) (e : Enumeration) (q : List TxFrame) (w : World) : Type 0 where
  pub in_hand : w.iface.tx_frame ≡ some f
  pub valid : w.iface.frame_cancelled ≡ false
  pub text : take w.iface.txlen w.iface.txbuf ≡ wire_bytes f
  pub size : w.iface.txlen ≡ length (wire_bytes f)
  pub enum : w.enum ≡ e
  pub queue : w.tx_queue_0 ≡ q

module _ (stale : List ℕ) ⦃env : Platform⦄ where
  -- The timer fires, and the frame is sent once more.
  unfoldable pub retry : World × Bus → Outcome (World × Bus)
  unfolding exchange
  retry (w, bus) = exchange stale (tx_timeout_fired w, bus)

  unfoldable pub retries : ℕ → World × Bus → Outcome (World × Bus)
  unfolding retry
  retries zero s = ok s
  retries (suc n) s = retry s >>= retries n

  pub sent-Unanswered :
      (f : TxFrame) (e : Enumeration) (q : List TxFrame) (b b' : Bus) (w : World)
      → Ready e (f ∷ q) w
      → length f.payload ≤ 58
      → expects_ack (some f) ≡ true
      → Answers stale f b b' []
      → (w' : World) × (exchange stale (w, quiet b [] []) ≡ ok (w', quiet b' [] []))
        × Unanswered f e q w'
  unfolding exchange hear
  sent-Unanswered f e q b b' w ready fits wants answers =
      let (r, said, waits) = speak_lem f q w ready.rest ready.queue fits wants in
      let told = bus_round_lem stale [] f b b' fits answers in
      (
        sent f q r w,
        ap
              (λ m. m >>= λ (s : World × List ℕ).
                bus_round stale s.1 (quiet b [] []) >>= λ (t : Bus × List ℕ).
                hear t.1 s.0 >>= λ u. ok (u, t.0))
              said
            ∙ ap (λ m. m >>= λ (t : Bus × List ℕ). hear t.1 (sent f q r w) >>= λ u. ok (u, t.0))
                told,
        record {
          in_hand = refl;
          valid = refl;
          text = take-append (wire_bytes f) r;
          size = refl;
          enum = ready.enum;
          queue = refl;
        },
      )

  -- The timer winds the frame back.
  rewound :
      (f : TxFrame) (e : Enumeration) (q : List TxFrame) (w : World)
      → Unanswered f e q w
      → Unanswered f e q (tx_timeout_fired w) × ((tx_timeout_fired w).iface.txpos ≡ 0)
  unfolding tx_timeout_fired sric_if_tx_ready
  rewound f e q w u = ground arith

  written-Unanswered :
      (f : TxFrame) (e : Enumeration) (q : List TxFrame) (w : World)
      → length f.payload ≤ 58
      → expects_ack (some f) ≡ true
      → w.iface.txpos ≡ 0
      → Unanswered f e q w
      → Unanswered f e q (written (length (wire_bytes f)) w).0
  unfolding written
  written-Unanswered f e q w fits wants start u = ground (arith, length-wire_bytes f fits)

  offered_Unanswered :
      (f : TxFrame) (e : Enumeration) (q : List TxFrame) (w : World)
      → w.iface.txpos ≡ 0
      → Unanswered f e q w
      → offered_for w.iface.tx_frame w ≡ length (wire_bytes f)
  offered_Unanswered f e q w start u =
      let rest : w.iface.txlen - w.iface.txpos ≡ length (wire_bytes f) =
        omega (arith, u.size, start) in
      ap (λ t. offered_for t w) u.in_hand ∙ rest

  speak_again :
      (f : TxFrame) (e : Enumeration) (q : List TxFrame) (w : World)
      → length f.payload ≤ 58
      → expects_ack (some f) ≡ true
      → w.iface.txpos ≡ 0
      → Unanswered f e q w
      → (v : World) × (speak w ≡ ok (v, wire_bytes f)) × Unanswered f e q v
  unfolding speak
  speak_again f e q w fits wants start u =
      let n = length (wire_bytes f) in
      let v = call (serial_write (wire_bytes f)) w in
      let same : Unanswered f e q v = record {
        in_hand = u.in_hand;
        valid = u.valid;
        text = u.text;
        size = u.size;
        enum = u.enum;
        queue = u.queue;
      } in
      let told : if_tx (some n) w ≡ ok (written n v) =
        sends_from_start n f w u.in_hand start (omega (arith, length-wire_bytes f fits, u.size))
        ∙ ap (λ bytes. ok (written n (call (serial_write bytes) w))) u.text in
      let heard : newly_written w (written n v).0 ≡ wire_bytes f =
        newly_written_lem (wire_bytes f) w (written n v).0 (written_silent n v) in
      (
        (written n v).0,
        ap (λ k. if_tx (some k) w >>= λ (s : World × Bool). ok (s.0, newly_written w s.0))
              (offered_Unanswered f e q w start u)
            ∙ ap (λ m. m >>= λ (s : World × Bool). ok (s.0, newly_written w s.0)) told
            ∙ ap (λ bytes. ok ((written n v).0, bytes)) heard,
        written-Unanswered f e q v fits wants start same,
      )

  module _ (f : TxFrame) (e : Enumeration) (q : List TxFrame) (b : Bus)
      (fits : length f.payload ≤ 58) (wants : expects_ack (some f) ≡ true)
      (silent : Answers stale f b b []) where
    retry_lem :
        (w : World)
        → Unanswered f e q w
        → (w' : World) × (retry (w, quiet b [] []) ≡ ok (w', quiet b [] [])) × Unanswered f e q w'
    unfolding retry exchange hear
    retry_lem w u =
        let (back, start) = rewound f e q w u in
        let (v, said, again) = speak_again f e q (tx_timeout_fired w) fits wants start back in
        let told = bus_round_lem stale [] f b b fits silent in
        (
          v,
          ap
                (λ m. m >>= λ (s : World × List ℕ).
                  bus_round stale s.1 (quiet b [] []) >>= λ (t : Bus × List ℕ).
                  hear t.1 s.0 >>= λ u'. ok (u', t.0))
                said
              ∙ ap (λ m. m >>= λ (t : Bus × List ℕ). hear t.1 v >>= λ u'. ok (u', t.0)) told,
          again,
        )

    -- However often the timer fires, the frame is sent again, the bus stays silent, and the state
    -- machine stays where it is.
    pub retries_lem :
        (n : ℕ) (w : World)
        → Unanswered f e q w
        → (w' : World) × (retries n (w, quiet b [] []) ≡ ok (w', quiet b [] []))
          × Unanswered f e q w'
    unfolding retries
    retries_lem zero w u = (w, refl, u)
    retries_lem (suc n) w u =
        let (v, step, again) = retry_lem w u in
        let (w', steps, still) = retries_lem n v again in (w', rw step steps, still)
