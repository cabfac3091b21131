-- ===== src/Simulation/Serving.antt =====
-- sricd/sric-if.c and ostric: the frame of a client goes out, and the answer comes back to it.
use mathlib.Core.Path.{subst}
use sricd.Base.{
  ℕ, ◌+◌, ◌%◌, ◌≤◌, ◌<◌, ◌≡◌, ◌∙◌, ap, refl, true, false, List, [], ◌∷◌, arith, if◌then◌else◌, none,
  some, length,
}
use sricd.World.{World, Platform, Interface, Client, Frame, PackedFrame, TxFrame, owner, ok, ◌>>=◌}
use sricd.World.Ensures.{Ensures}
use sricd.OutputQueue.{txq_next, pop_tail, next_round, pri_0, pri_1}
use sricd.Client.{client_push_rx}
use sricd.Client.Waiting.{WaitsOnEmpty, after_push_rx, client_push_rx_lem}
use sricd.Client.Delivery.{Delivers, client_push_rx-Delivers}
use sricd.SricEnum.{low_bits}
use sricd.SricIf.Ready.{sric_if_tx_ready}
use sricd.SricIf.Receive.{packed, retire, received_frame, ack_handled, ack_received, frame_complete}
use sricd.SricIf.Receive.Bounds.{RxBounds}
use sricd.SricIf.Receive.Whole.{unescaped, frame_done, rx_whole}
use sricd.SricIf.Transmit.{visible_priority}
use sricd.Ostric.{reply_bytes}
use sricd.Ostric.Wire.{reply_body, length-reply_body, reply_bytes_lem, reply_complete}
use sricd.Simulation.{hear}
use sricd.Simulation.Hearing.{listening, cut_answer, proc_rx_frame_answer}

-- The daemon serves its clients, and no frame is in hand.
pub record Serving (w : World) : Type 0 where
  pub bounds : RxBounds w.iface
  pub heard : w.iface.rxpos ≡ 0
  pub in_hand : w.iface.tx_frame ≡ none
  pub enumerated : w.iface.enumerated ≡ true

pub txq_next-second :
    (f : TxFrame) (q : List TxFrame) (w : World)
    → w.iface.enumerated ≡ true
    → w.tx_queue_0 ≡ []
    → w.tx_queue_1 ≡ f ∷ q
    → txq_next (visible_priority w.iface.enumerated) w ≡ (some f, record w { tx_queue_1 = q })
unfolding txq_next
txq_next-second f q w serving first second =
    ap (λ b. next_round (visible_priority b) (pop_tail pri_0 w.tx_queue_0 w)) serving
    ∙ ap (λ l. next_round pri_1 (pop_tail pri_0 l w)) first
    ∙ ap (λ l. pop_tail pri_1 l w) second

-- What the client is handed of an answer.
abbrev pub frame_heard : ℕ → List ℕ → Frame
frame_heard src payload = record {
  source_address = src;
  dest_address = 1;
  note = 0;
  payload = payload;
}

abbrev of_cut : PackedFrame → Frame
of_cut h = record {
  source_address = low_bits h.source_address;
  dest_address = low_bits h.dest_address;
  note = 0;
  payload = h.payload;
}

module _ ⦃env : Platform⦄ where
  received_answer :
      (src : ℕ) (payload left more : List ℕ) (w : World)
      → src < 128
      → length payload ≤ 64
      → received_frame (packed (unescaped 0x7E (reply_body src 0x81 payload) left more w).iface)
        ≡ frame_heard src payload
  received_answer src payload left more w low fits =
      let same : src % 0x80 ≡ src = omega arith in
      ap of_cut (cut_answer src payload left more w low fits) ∙ ap (λ a. frame_heard a payload) same

  ack_handled-client :
      (f : PackedFrame) (tx : TxFrame) (w v : World)
      → w.iface.enumerated ≡ true
      → client_push_rx tx.tag (received_frame f) w ≡ ok v
      → ack_handled f tx w ≡ ok v
  unfolding ack_handled
  ack_handled-client f tx w v serving e = simp (serving, e)

  ack_received-client :
      (f : PackedFrame) (tx : TxFrame) (w v : World)
      → w.iface.frame_cancelled ≡ false
      → w.iface.enumerated ≡ true
      → client_push_rx tx.tag (received_frame f) (listening w) ≡ ok v
      → ack_received f tx w ≡ ok (retire v)
  unfolding ack_received sric_if_tx_ready
  ack_received-client f tx w v valid serving e =
      let ready = listening w in
      ap (λ b. if b then ok (retire ready) else (ack_handled f tx ready >>= λ u. ok (retire u)))
        valid
      ∙ ap (λ m. m >>= λ u. ok (retire u)) (ack_handled-client f tx ready v serving e)

  -- The answer to the frame of a client in hand is handed to that client.
  pub hear_client :
      (src c : ℕ) (payload : List ℕ) (f : TxFrame) (x : Client) (w : World)
      → src < 128
      → length payload ≤ 64
      → RxBounds w.iface
      → w.iface.rxpos ≡ 0
      → w.iface.tx_frame ≡ some f
      → w.iface.frame_cancelled ≡ false
      → w.iface.enumerated ≡ true
      → f.tag ≡ owner c
      → w.clients c ≡ some x
      → WaitsOnEmpty x
      → (w' : World) × (hear (reply_bytes src 0x81 payload) w ≡ ok w')
        × (w'.iface.tx_frame ≡ none)
        × (w'.clients c ≡ some (after_push_rx x (frame_heard src payload)))
        × (w'.tx_queue_0 ≡ w.tx_queue_0)
        × (w'.tx_queue_1 ≡ w.tx_queue_1)
  unfolding hear sric_if_tx_ready
  hear_client src c payload f x w low fits b e held valid serving tagged live waits =
      let body = reply_body src 0x81 payload in
      let size = length-reply_body src 0x81 payload in
      let count : 1 + length body ≡ 6 + length payload = omega arith in
      let (left, more, bounds, whole) = rx_whole 0x7E body w refl (omega arith) (omega arith) b e in
      let u = unescaped 0x7E body left more w in
      let ready = listening u in
      let g = frame_heard src payload in
      let (v, pushed, told, _, _, _) = client_push_rx_lem c x g ready live waits in
      let handed =
        ap (λ t. client_push_rx t (received_frame (packed u.iface)) ready) tagged
        ∙ ap (λ r. client_push_rx (owner c) r ready)
            (received_answer src payload left more w low fits)
        ∙ pushed in
      let acked = ack_received-client (packed u.iface) f u v valid serving handed in
      let kept : Delivers ready v =
        subst (Ensures (Delivers ready)) pushed (client_push_rx-Delivers (owner c) g ready) in
      let complete : frame_complete u.iface ≡ true = rw count (
        reply_complete src 0x81 payload more (record (w.iface) { rxbuf = left; rxpos = 0 }) fits) in
      (
        frame_done (retire v),
        ap (λ bytes. hear bytes w) (reply_bytes_lem src 0x81 payload fits)
            ∙ whole (retire v) complete
                (proc_rx_frame_answer src payload left more f w (retire v) held acked)
                (ap (λ (i : Interface). i.rxpos) kept.iface),
        refl,
        told,
        kept.tx_queue_0,
        kept.tx_queue_1,
      )
