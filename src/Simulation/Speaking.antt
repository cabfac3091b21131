-- ===== src/Simulation/Speaking.antt =====
-- sricd/sric-if.c: the daemon sends the first frame of its queue.
use sricd.Base.{
  ℕ, Option, ◌+◌, ◌-◌, ◌%◌, ◌≤◌, ◌<◌, ◌≡◌, ◌∙◌, ap, refl, Bool, true, false, List, ◌∷◌, ◌++◌, arith,
  none, some, length, take, take-append, ==_refl,
}
use sricd.World.{
  World, Platform, TxFrame, next_source_id, ok, ◌>>=◌, call, serial_write, tx_timeout, timeout_add,
}
use sricd.OutputQueue.{Priority, txq_next, pop_tail, next_round, pri_0}
use sricd.Escape.RoundTrip.{escape_bytes_bounds}
use sricd.SricIf.Transmit.{
  expects_ack, next_tx, load_next, visible_priority, if_tx, write_rest, written,
}
use sricd.SricIf.Transmit.Wire.{frame_body, wire_bytes, length-frame_body, load_frame_lem}
use sricd.SricIf.Transmit.Retry.{newly_written, newly_written_lem, serial_writes}
use sricd.Simulation.{loaded_length, offered_for, speak}
use sricd.Simulation.Hearing.{AtRest, Waiting}

-- The frame stands in `txbuf`, with `r` behind it; `p` is the world in which it has left its queue.
abbrev pub loaded : TxFrame → List ℕ → World → World
loaded f r p = record p {
  iface = record (p.iface) {
    tx_frame = some f;
    frame_cancelled = false;
    txbuf = wire_bytes f ++ r;
    txlen = length (wire_bytes f);
    txpos = 0;
  };
}

next_tx_lem :
    (f : TxFrame) (w p : World)
    → txq_next (visible_priority w.iface.enumerated) w ≡ (some f, p)
    → length f.payload ≤ 64
    → (r : List ℕ) × (next_tx w ≡ ok (loaded f r p, true))
unfolding next_tx
next_tx_lem f w p popped fits =
    let (r, filled) = load_frame_lem f p.iface fits in
    (
      r,
      ap (λ (o : Option TxFrame × World). load_next o) popped
          ∙ ap (λ m. m >>= λ i. ok (record p { iface = i }, true)) filled,
    )

pub length-wire_bytes :
    (f : TxFrame)
    → length f.payload ≤ 58
    → (0 < length (wire_bytes f)) × (length (wire_bytes f) ≤ 127)
length-wire_bytes f fits = omega (arith, escape_bytes_bounds (frame_body f), length-frame_body f)

module _ ⦃env : Platform⦄ where
  -- The world in which it has been written, and in which its timer runs.
  abbrev pub dispatched : TxFrame → List ℕ → World → World
  dispatched f r p =
      let v = call (serial_write (wire_bytes f)) (loaded f r p) in
      call (timeout_add 50 tx_timeout) (record v {
        iface = record (v.iface) {
          txpos = length (wire_bytes f);
          write_srcid = 0;
          retxmit_timeout_id = next_source_id v;
        };
      })

  -- `write` took all of it.
  written_all :
      (n : ℕ) (f : TxFrame) (v : World)
      → n < 256
      → expects_ack (some f) ≡ true
      → let w = record v { iface = record (v.iface) { tx_frame = some f; txlen = n; txpos = 0 } } in
        written n w ≡ (
          call (timeout_add 50 tx_timeout) (record w {
            iface = record (w.iface) {
              txpos = n;
              write_srcid = 0;
              retxmit_timeout_id = next_source_id w;
            };
          }),
          false,
        )
  unfolding written
  written_all n f v small wants =
      let total : (0 + n) % 256 ≡ n = omega arith in simp (total, ==_refl n, wants)

  written_lem :
      (f : TxFrame) (r : List ℕ) (p : World)
      → length f.payload ≤ 58
      → expects_ack (some f) ≡ true
      → write_rest (some (length (wire_bytes f))) (loaded f r p) ≡ ok (dispatched f r p, false)
  unfolding write_rest
  written_lem f r p fits wants =
      let n = length (wire_bytes f) in
      let v = loaded f r p in
      let bounds = length-wire_bytes f fits in
      let no_less : n - 0 ≡ n = omega arith in
      let left : take (n - 0) (wire_bytes f ++ r) ≡ wire_bytes f =
        ap (λ k. take k (wire_bytes f ++ r)) no_less ∙ take-append (wire_bytes f) r in
      ap (λ bytes. ok (written n (call (serial_write bytes) v))) left
      ∙ ap (λ r. ok r) (written_all n f (call (serial_write (wire_bytes f)) v) (omega arith) wants)

  if_tx_next :
      (o : Option ℕ) (w u v : World)
      → w.iface.tx_frame ≡ none
      → next_tx w ≡ ok (u, true)
      → write_rest o u ≡ ok (v, false)
      → if_tx o w ≡ ok (v, false)
  unfolding if_tx
  if_tx_next o w u v idle next wrote = simp (idle, next, wrote)

  -- A daemon with no frame in hand sends the one that it takes off its queues, if that wants an
  -- acknowledgement.
  pub speak_popped :
      (f : TxFrame) (w p : World)
      → w.iface.tx_frame ≡ none
      → txq_next (visible_priority w.iface.enumerated) w ≡ (some f, p)
      → p.calls ≡ w.calls
      → length f.payload ≤ 58
      → expects_ack (some f) ≡ true
      → (r : List ℕ) × (speak w ≡ ok (dispatched f r p, wire_bytes f))
  unfolding speak
  speak_popped f w p idle popped quiet fits wants =
      let (r, next) = next_tx_lem f w p popped (omega arith) in
      let wrote = written_lem f r p fits wants in
      let n = length (wire_bytes f) in
      let v = dispatched f r p in
      let sized : offered_for w.iface.tx_frame w ≡ n =
        ap (λ t. offered_for t w) idle ∙ ap loaded_length next in
      let heard =
        newly_written_lem (wire_bytes f) w v (ap (λ c. wire_bytes f ∷ serial_writes c) quiet) in
      (
        r,
        ap (λ k. if_tx (some k) w >>= λ (s : World × Bool). ok (s.0, newly_written w s.0)) sized
            ∙ ap (λ m. m >>= λ (s : World × Bool). ok (s.0, newly_written w s.0))
                (if_tx_next (some n) w (loaded f r p) v idle next wrote)
            ∙ ap (λ bytes. ok (v, bytes)) heard,
      )

  -- The first frame of the first queue has been sent; `q` is what is left of that.
  abbrev pub sent : TxFrame → List TxFrame → List ℕ → World → World
  sent f q r w = dispatched f r (record w { tx_queue_0 = q })

  txq_next-first :
      (f : TxFrame) (q : List TxFrame) (w : World) (pri : Priority)
      → w.tx_queue_0 ≡ f ∷ q
      → txq_next pri w ≡ (some f, record w { tx_queue_0 = q })
  unfolding txq_next
  txq_next-first f q w pri queue = ap (λ l. next_round pri (pop_tail pri_0 l w)) queue

  -- A daemon at rest sends the first frame of its first queue, if that wants an acknowledgement,
  -- and then waits for it.
  pub speak_lem :
      (f : TxFrame) (q : List TxFrame) (w : World)
      → AtRest w
      → w.tx_queue_0 ≡ f ∷ q
      → length f.payload ≤ 58
      → expects_ack (some f) ≡ true
      → (r : List ℕ) × (speak w ≡ ok (sent f q r w, wire_bytes f)) × Waiting f (sent f q r w)
  speak_lem f q w rest queue fits wants =
      let popped = txq_next-first f q w (visible_priority w.iface.enumerated) queue in
      let (r, said) =
        speak_popped f w (record w { tx_queue_0 = q }) rest.in_hand popped refl fits wants in
      (
        r,
        said,
        record {
          bounds = record {
            rxbuf_length = rest.bounds.rxbuf_length;
            rxpos_le = rest.bounds.rxpos_le;
            unesc_length = rest.bounds.unesc_length;
            unesc_pos_le = rest.bounds.unesc_pos_le;
          };
          heard = rest.heard;
          in_hand = refl;
          valid = refl;
          enumerating = rest.enumerating;
        },
      )
