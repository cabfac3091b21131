-- ===== src/Simulation/Hearing.antt =====
-- sricd/sric-if.c and ostric/reply.c: the daemon hears the answer to the frame in hand.
use mathlib.Core.Path.{subst}
use sricd.Base.{
  Bool, ℕ, ◌+◌, ◌%◌, ◌≤◌, ◌<◌, ◌≡◌, ◌∙◌, ap, sym, refl, true, false, List, ◌++◌, arith,
  if◌then◌else◌, append_assoc, drop, none, some, length, take, take-append,
}
use sricd.World.{World, Platform, Interface, TxFrame, PackedFrame, Enumeration, ok, ◌>>=◌}
use sricd.World.Ensures.{Ensures}
use sricd.Simulation.{hear}
use sricd.SricEnum.{sric_enum_rx}
use sricd.SricEnum.Cut.{cut, sric_enum_rx-cut}
use sricd.SricEnum.Footprint.{Keeps, sric_enum_rx-Keeps}
use sricd.SricIf.Ready.{sric_if_tx_ready}
use sricd.SricIf.Receive.{
  packed, timer_stopped, retire, ack_handled, ack_received, ack_for, frame_complete, proc_rx_frame,
}
use sricd.SricIf.Receive.Bounds.{RxBounds}
use sricd.SricIf.Receive.Whole.{unescaped, frame_done, rx_whole}
use sricd.Ostric.{reply_frame, reply_bytes}
use sricd.Ostric.Wire.{reply_body, length-reply_body, reply_bytes_lem, reply_complete}

-- The answer of the address `src` to the gateway.
abbrev pub answer : ℕ → List ℕ → PackedFrame
answer src payload = record {
  dest_address = 0x81;
  source_address = src;
  payload_len = length payload;
  payload = payload;
}

-- Nothing is left to read; the frame in hand is `f`, and not cancelled; the enumeration is on.
pub record Waiting (f : TxFrame) (w : World) : Type 0 where
  pub bounds : RxBounds w.iface
  pub heard : w.iface.rxpos ≡ 0
  pub in_hand : w.iface.tx_frame ≡ some f
  pub valid : w.iface.frame_cancelled ≡ false
  pub enumerating : w.iface.enumerated ≡ false

module _ ⦃env : Platform⦄ where
  -- In the state `e` the frame leads to the state `e'`, and queues the frames `fs`.
  abbrev pub Leads : Enumeration → PackedFrame → Enumeration → List TxFrame → Type 0
  Leads e f e' fs =
      (v : World)
      → v.enum ≡ e
      → (v' : World) × (sric_enum_rx f v ≡ ok (v', true))
        × (v'.enum ≡ e')
        × (v'.tx_queue_0 ≡ v.tx_queue_0 ++ fs)

  -- The state machine is handed the frame in the receive buffer.
  abbrev pub listening : World → World
  listening w = sric_if_tx_ready (timer_stopped w)

  ack_handled_lem :
      (f : PackedFrame) (tx : TxFrame) (w v : World)
      → w.iface.enumerated ≡ false
      → sric_enum_rx f w ≡ ok (v, true)
      → ack_handled f tx w ≡ ok v
  unfolding ack_handled
  ack_handled_lem f tx w v running e = simp (running, e)

  ack_received_lem :
      (f : PackedFrame) (tx : TxFrame) (w v : World)
      → w.iface.frame_cancelled ≡ false
      → w.iface.enumerated ≡ false
      → sric_enum_rx f (listening w) ≡ ok (v, true)
      → ack_received f tx w ≡ ok (retire v)
  unfolding ack_received sric_if_tx_ready
  ack_received_lem f tx w v valid running e =
      let ready = listening w in
      ap (λ b. if b then ok (retire ready) else (ack_handled f tx ready >>= λ u. ok (retire u)))
        valid
      ∙ ap (λ m. m >>= λ u. ok (retire u)) (ack_handled_lem f tx ready v running e)

-- No frame is in hand either.
pub record AtRest (w : World) : Type 0 where
  pub bounds : RxBounds w.iface
  pub heard : w.iface.rxpos ≡ 0
  pub in_hand : w.iface.tx_frame ≡ none
  pub enumerating : w.iface.enumerated ≡ false

module _ ⦃env : Platform⦄ where
  -- The acknowledgement in the receive buffer is for the gateway.
  pub proc_rx_frame_answer :
      (src : ℕ) (payload left more : List ℕ) (f : TxFrame) (w v : World)
      → let u = unescaped 0x7E (reply_body src 0x81 payload) left more w in
        w.iface.tx_frame ≡ some f
        → ack_received (packed u.iface) f u ≡ ok v
        → proc_rx_frame u ≡ ok v
  unfolding proc_rx_frame reply_frame
  proc_rx_frame_answer src payload left more f w v held e =
      let u = unescaped 0x7E (reply_body src 0x81 payload) left more w in
      ap (λ o. ack_for o (packed u.iface) u) held ∙ e

  pub cut_answer :
      (src : ℕ) (payload left more : List ℕ) (w : World)
      → src < 128
      → length payload ≤ 64
      → cut (packed (unescaped 0x7E (reply_body src 0x81 payload) left more w).iface)
        ≡ answer src payload
  unfolding reply_frame
  cut_answer src payload left more w low fits =
      let small : length payload % 256 ≡ length payload = omega arith in
      let same : src % 0x80 ≡ src = omega arith in
      let held : take (length payload % 256) (drop 4 (reply_frame src 0x81 payload ++ more))
          ≡ payload =
        ap (λ n. take n (drop 4 (reply_frame src 0x81 payload ++ more))) small
        ∙ ap (take (length payload)) (append_assoc payload _ more)
        ∙ take-append payload _ in
      λ k. record {
        dest_address = 0x81;
        source_address = same k;
        payload_len = small k;
        payload = held k;
      }

  -- A state machine that has kept the port leaves the receiver as it was.
  done-AtRest :
      (u v : World)
      → RxBounds u.iface
      → u.iface.rxpos ≡ 0
      → u.iface.enumerated ≡ false
      → Keeps (listening u) v
      → AtRest (frame_done (retire v))
  unfolding sric_if_tx_ready
  done-AtRest u v b e running k = record {
    bounds = record {
      rxbuf_length = ap (λ (i : Interface). length i.rxbuf) k.iface ∙ b.rxbuf_length;
      rxpos_le = omega (arith, ap (λ (i : Interface). i.rxpos) k.iface);
      unesc_length = ap (λ (i : Interface). length i.unesc_rx) k.iface ∙ b.unesc_length;
      unesc_pos_le = omega arith;
    };
    heard = ap (λ (i : Interface). i.rxpos) k.iface ∙ e;
    in_hand = refl;
    enumerating = ap (λ (i : Interface). i.enumerated) k.iface ∙ running;
  }

  -- The answer arrives, whole and alone, and the state machine takes the step that it leads to; the
  -- frame in hand is done with.
  pub hear_lem :
      (src : ℕ) (payload : List ℕ) (f : TxFrame) (fs : List TxFrame) (e e' : Enumeration)
      (w : World)
      → src < 128
      → length payload ≤ 64
      → Waiting f w
      → w.enum ≡ e
      → Leads e (answer src payload) e' fs
      → (w' : World) × (hear (reply_bytes src 0x81 payload) w ≡ ok w')
        × AtRest w'
        × (w'.enum ≡ e')
        × (w'.tx_queue_0 ≡ w.tx_queue_0 ++ fs)
  unfolding hear sric_if_tx_ready
  hear_lem src payload f fs e e' w low fits waits here leads =
      let body = reply_body src 0x81 payload in
      let size = length-reply_body src 0x81 payload in
      let count : 1 + length body ≡ 6 + length payload = omega arith in
      let (left, more, bounds, whole) =
        rx_whole 0x7E body w refl (omega arith) (omega arith) waits.bounds waits.heard in
      let u = unescaped 0x7E body left more w in
      let ready = listening u in
      let (v, stepped, enum, queue) = leads ready here in
      let handed =
        sym (sric_enum_rx-cut (packed u.iface) ready)
        ∙ ap (λ g. sric_enum_rx g ready) (cut_answer src payload left more w low fits)
        ∙ stepped in
      let acked = ack_received_lem (packed u.iface) f u v waits.valid waits.enumerating handed in
      let kept : Keeps ready v =
        subst (Ensures (λ (r : World × Bool). Keeps ready r.0)) stepped
          (sric_enum_rx-Keeps (answer src payload) ready) in
      let complete : frame_complete u.iface ≡ true = rw count (
        reply_complete src 0x81 payload more (record (w.iface) { rxbuf = left; rxpos = 0 }) fits) in
      (
        frame_done (retire v),
        ap (λ bytes. hear bytes w) (reply_bytes_lem src 0x81 payload fits)
            ∙ whole (retire v) complete
                (proc_rx_frame_answer src payload left more f w (retire v) waits.in_hand acked)
                (ap (λ (i : Interface). i.rxpos) kept.iface),
        done-AtRest u v bounds refl waits.enumerating kept,
        enum,
        queue,
      )
