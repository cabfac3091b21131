-- ===== src/SricIf/Receive/Termination.antt =====
-- sricd/sric-if.c: the loop of `rx` ends, and keeps its buffers in bounds.
use sricd.Base.{
  ℕ, zero, suc, ◌+◌, ◌-◌, ◌≤◌, ◌<◌, ◌≡◌, refl, Bool, true, false, not, ◌&&◌, List, Option, none,
  some, arith, ◌==◌, if◌then◌else◌, length,
}
use sricd.World.{World, Platform, Interface, TxFrame, PackedFrame, ok, exited, call, listen}
use sricd.World.Ensures.{Ensures, Ensures->>=, Ensures-if, Ensures-mono}
use sricd.Device.{device_dispatch_note}
use sricd.OutputQueue.{pri_0, txq_push}
use sricd.SricEnum.Footprint.{Keeps, sric_enum_rx-Keeps}
use sricd.Client.{client_push_rx}
use sricd.Client.Delivery.{Delivers, client_push_rx-Delivers, device_dispatch_note-Delivers}
use sricd.SricIf.Ready.{sric_if_tx_ready}
use sricd.SricIf.Receive.{
  rxbuf_size, in_interface, acknowledgement, note_of, received_frame, request_received, ack_handled,
  ack_received, proc_rx_frame, process_if_complete, frame_complete, rx_loop, read_bytes,
  read_incoming, rx, packed, ack_for, retire, round, timer_stopped,
}
use sricd.SricIf.Receive.Bounds.{RxBounds, advance_rx-Advances, length-spliced}

-- The receive buffers are as they were.
pub record SameInput (w w' : World) : Type 0 where
  pub rxbuf : w'.iface.rxbuf ≡ w.iface.rxbuf
  pub rxpos : w'.iface.rxpos ≡ w.iface.rxpos
  pub unesc_rx : w'.iface.unesc_rx ≡ w.iface.unesc_rx
  pub unesc_pos : w'.iface.unesc_pos ≡ w.iface.unesc_pos

module _ ⦃env : Platform⦄ where
  queued_delivery :
      (tx : TxFrame) (w w' : World) → Delivers (txq_push tx pri_0 w) w' → SameInput w w'
  unfolding txq_push sric_if_tx_ready
  queued_delivery tx w w' d = ground arith

  request_received-SameInput :
      (f : PackedFrame) (w : World) → Ensures (SameInput w) (request_received f w)
  unfolding request_received
  request_received-SameInput f w =
      Ensures-if (SameInput w) (f.payload_len == 0) _ (device_dispatch_note (note_of f) queued)
        (λ _. queued_delivery (acknowledgement f) w queued (ground arith))
        (λ _.
          Ensures-mono (Delivers queued) (SameInput w) _
            (device_dispatch_note-Delivers (note_of f) queued)
            (queued_delivery (acknowledgement f) w))
    where
      queued : World
      queued = txq_push (acknowledgement f) pri_0 w

  Delivers-SameInput : (w w' : World) → Delivers w w' → SameInput w w'
  Delivers-SameInput w w' d = ground arith

  Keeps-SameInput : (w w' : World) → Keeps w w' → SameInput w w'
  Keeps-SameInput w w' k = ground arith

  ack_handled-SameInput :
      (f : PackedFrame) (tx : TxFrame) (w : World) → Ensures (SameInput w) (ack_handled f tx w)
  unfolding ack_handled
  ack_handled-SameInput f tx w =
      Ensures-if (SameInput w) w.iface.enumerated (client_push_rx tx.tag (received_frame f) w) _
        (λ _.
          Ensures-mono (Delivers w) (SameInput w) _
            (client_push_rx-Delivers tx.tag (received_frame f) w) (Delivers-SameInput w))
        (λ _.
          Ensures->>= (λ r. Keeps w r.0) (SameInput w) _ _ (sric_enum_rx-Keeps f w)
            (λ r k. after r.0 r.1 (Keeps-SameInput w r.0 k)))
    where
      after :
          (v : World) (more : Bool)
          → SameInput w v
          → Ensures (SameInput w) (
              if more
              then ok v
              else ok (call listen (record v { iface = record (v.iface) { enumerated = true } })))
      after v true k = k
      after v false k = ground arith

  ack_received-SameInput :
      (f : PackedFrame) (tx : TxFrame) (w : World) → Ensures (SameInput w) (ack_received f tx w)
  unfolding ack_received sric_if_tx_ready
  ack_received-SameInput f tx w =
      Ensures-if (SameInput w) ready.iface.frame_cancelled (ok (retire ready)) _ (λ _. ground arith)
        (λ _.
          Ensures->>= (SameInput ready) (SameInput w) _ (λ v. ok (retire v))
            (ack_handled-SameInput f tx ready) (λ v k. ground arith))
    where
      ready : World
      ready = sric_if_tx_ready (timer_stopped w)

  ack_for-SameInput :
      (o : Option TxFrame) (f : PackedFrame) (w : World) → Ensures (SameInput w) (ack_for o f w)
  ack_for-SameInput none f w = ground arith
  ack_for-SameInput (some tx) f w = ack_received-SameInput f tx w

  proc_rx_frame-SameInput : (w : World) → Ensures (SameInput w) (proc_rx_frame w)
  unfolding proc_rx_frame
  proc_rx_frame-SameInput w = ground (
    arith,
    request_received-SameInput (packed w.iface) w,
    ack_for-SameInput w.iface.tx_frame (packed w.iface) w,
  )

  -- The body of the loop neither consumes input nor makes any up.
  abbrev KeepsInput : World → World → Type 0
  KeepsInput w w' = RxBounds w'.iface × (w'.iface.rxpos ≡ w.iface.rxpos)

  process_if_complete-KeepsInput :
      (w : World) → RxBounds w.iface → Ensures (KeepsInput w) (process_if_complete w)
  unfolding process_if_complete
  process_if_complete-KeepsInput w b =
      Ensures-if (KeepsInput w) (frame_complete w.iface) _ (ok w)
        (λ _.
          Ensures->>= (SameInput w) (KeepsInput w) (proc_rx_frame w) _ (proc_rx_frame-SameInput w)
            (λ v same. ground arith))
        (λ _. (b, refl))

  rx_loop_terminates :
      (fuel : ℕ) (w : World)
      → RxBounds w.iface
      → w.iface.rxpos < fuel
      → Ensures (λ w'. RxBounds w'.iface) (rx_loop fuel w)
  unfolding rx_loop
  rx_loop_terminates zero w b h = absurd (omega arith)
  rx_loop_terminates (suc fuel) w b h =
      let a = advance_rx-Advances w.iface b in
      rw (a.returns, rx_loop)
        (one_round a.more (in_interface a.next w) a.bounds (λ e. omega (arith, a.consumes e))
          (λ v k. rx_loop_terminates fuel v k.0))
    where
      one_round :
          (more : Bool) (v : World)
          → RxBounds v.iface
          → (more ≡ true → v.iface.rxpos < fuel)
          → ((u : World)
              → RxBounds u.iface × (u.iface.rxpos ≡ v.iface.rxpos)
              → u.iface.rxpos < fuel
              → Ensures (λ w'. RxBounds w'.iface) (rx_loop fuel u))
          → Ensures (λ w'. RxBounds w'.iface) (round more (rx_loop fuel) v)
      one_round true v b less again =
          Ensures->>= (KeepsInput v) (λ w'. RxBounds w'.iface) (process_if_complete v)
            (rx_loop fuel) (process_if_complete-KeepsInput v b)
            (λ u k. again u k (rw (k.1) (less refl)))
      one_round false v b less again = b

  read_incoming-RxBounds :
      (bytes : List ℕ) (i : Interface)
      → RxBounds i
      → i.rxpos + length bytes ≤ rxbuf_size
      → Ensures RxBounds (read_incoming (read_bytes bytes) i)
  unfolding read_incoming
  read_incoming-RxBounds bytes i b fits =
      Ensures-if RxBounds ((length bytes == 0) && not (rxbuf_size - i.rxpos == 0)) exited _
        (λ _. tt)
        (λ _. record {
          rxbuf_length = omega (arith, length-spliced i.rxpos bytes i.rxbuf);
          rxpos_le = omega arith;
          unesc_length = b.unesc_length;
          unesc_pos_le = b.unesc_pos_le;
        })

  -- Whatever bytes arrive, as many as `read` was given room for, `rx` comes to an end, with its
  -- buffers in bounds, unless a call below it ends the program: the fuel of the model never
  -- runs out.
  pub rx_terminates :
      (bytes : List ℕ) (w : World)
      → RxBounds w.iface
      → w.iface.rxpos + length bytes ≤ rxbuf_size
      → Ensures (λ w'. RxBounds w'.iface) (rx (read_bytes bytes) w)
  unfolding rx
  rx_terminates bytes w b fits =
      Ensures->>= RxBounds (λ w'. RxBounds w'.iface) (read_incoming (read_bytes bytes) w.iface) _
        (read_incoming-RxBounds bytes w.iface b fits)
        (λ i c. rx_loop_terminates (i.rxpos + 1) (in_interface i w) c (omega arith))
