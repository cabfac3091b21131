-- ===== src/SricIf/Transmit/Retry.antt =====
-- sricd/sric-if.c: a frame that waits for its acknowledgement, and its retransmission.
use sricd.Base.{
  ℕ, suc, ◌<◌, ◌≡◌, ◌==◌, if◌then◌else◌, length, refl, false, List, [], ◌∷◌, Option, some, none,
  Bool, true, ◌||◌, arith, take,
}
use sricd.World.{
  World, Platform, Interface, TxFrame, Tag, tag_eq, Effect, serial_write, call, Outcome, ok, ◌>>=◌,
}
use sricd.OutputQueue.{Priority, pri_0, pri_1, txq_push, txq_cancel}
use sricd.SricIf.Ready.{sric_if_tx_ready, sric_if_cancel}
use sricd.SricIf.Transmit.{if_tx, write_rest, written, tx_timeout_fired}

-- What was offered to the serial port, the last first.
abbrev pub serial_writes : List Effect → List (List ℕ)
serial_writes [] = []
serial_writes (serial_write bytes ∷ calls) = bytes ∷ serial_writes calls
serial_writes (_ ∷ calls) = serial_writes calls

abbrev first_of : List (List ℕ) → List ℕ
first_of [] = []
first_of (bytes ∷ more) = bytes

-- What was written to the serial port between the two worlds, by at most one `write`.
abbrev pub newly_written : World → World → List ℕ
newly_written w w' =
    let writes = serial_writes w'.calls in
    if length writes == length (serial_writes w.calls) then [] else first_of writes

-- What can happen while the acknowledgement is out: a frame is queued, the frames with a tag are
-- cancelled, or the port is ready to be written to, where the `write`, if it were called, returned
-- the number given.
pub data WaitEvent : Type 0 where
  frame_queued : TxFrame → Priority → WaitEvent
  frames_cancelled : Tag → WaitEvent
  port_ready : Option ℕ → WaitEvent

module _ ⦃env : Platform⦄ where
  abbrev pub wait_step : WaitEvent → World → Outcome World
  wait_step (frame_queued f pri) w = ok (txq_push f pri w)
  wait_step (frames_cancelled tag) w = ok (txq_cancel tag w)
  wait_step (port_ready result) w = if_tx result w >>= λ r. ok r.0

  pub wait_all : List WaitEvent → World → Outcome World
  wait_all [] w = ok w
  wait_all (e ∷ es) w = wait_step e w >>= wait_all es

-- Whether `f` is cancelled once the events have happened, for whether it was before.
abbrev pub cancels : TxFrame → WaitEvent → Bool
cancels f (frames_cancelled tag) = tag_eq f.tag tag
cancels f _ = false

abbrev pub cancelled_after : TxFrame → Bool → List WaitEvent → Bool
cancelled_after f before [] = before
cancelled_after f before (e ∷ es) = cancelled_after f (cancels f e || before) es

-- The frame in hand is `f`, sent in full, and its text is that of `i`; `off` is whether it is
-- cancelled.
pub record InFlight (f : TxFrame) (i : Interface) (writes : List (List ℕ)) (off : Bool) (w : World)
    : Type 0 where
  pub in_hand : w.iface.tx_frame ≡ some f
  pub sent : w.iface.txpos ≡ w.iface.txlen
  pub flag : w.iface.frame_cancelled ≡ off
  pub text : w.iface.txbuf ≡ i.txbuf
  pub text_length : w.iface.txlen ≡ i.txlen
  pub silent : serial_writes w.calls ≡ writes

module _ ⦃env : Platform⦄ where
  wait_step-InFlight :
      (e : WaitEvent) (f : TxFrame) (i : Interface) (writes : List (List ℕ)) (off : Bool)
      (w : World)
      → InFlight f i writes off w
      → (w' : World) × (wait_step e w ≡ ok w') × InFlight f i writes (cancels f e || off) w'
  unfolding txq_push sric_if_tx_ready if_tx txq_cancel sric_if_cancel
  wait_step-InFlight (frame_queued g pri_0) f i writes off w h = (_, refl, ground arith)
  wait_step-InFlight (frame_queued g pri_1) f i writes off w h = (_, refl, ground arith)
  wait_step-InFlight (frames_cancelled tag) f i writes off w h = (
    txq_cancel tag w,
    refl,
    record {
      in_hand = h.in_hand;
      sent = h.sent;
      flag = rw (h.in_hand, h.flag) (ground arith);
      text = h.text;
      text_length = h.text_length;
      silent = h.silent;
    },
  )
  wait_step-InFlight (port_ready result) f i writes off w h =
      (record w { iface = record (w.iface) { write_srcid = 0 } }, ground arith, ground arith)

  wait_all-InFlight :
      (es : List WaitEvent) (f : TxFrame) (i : Interface) (writes : List (List ℕ)) (off : Bool)
      (w : World)
      → InFlight f i writes off w
      → (w' : World) × (wait_all es w ≡ ok w') × InFlight f i writes (cancelled_after f off es) w'
  unfolding wait_all
  wait_all-InFlight [] f i writes off w h = (w, refl, h)
  wait_all-InFlight (e ∷ es) f i writes off w h =
      let (v, step, k) = wait_step-InFlight e f i writes off w h in
      let (w', steps, l) = wait_all-InFlight es f i writes (cancels f e || off) v k in
      (w', rw step steps, l)

  -- The timer fires, and the port takes `n` bytes.
  pub retry : ℕ → World → Outcome World
  retry n w = if_tx (some n) (tx_timeout_fired w) >>= λ r. ok r.0

  one_more : (n : ℕ) → (suc n == n) ≡ false
  one_more n = ground arith

  -- A world that comes behind a `write` of the bytes, and no other.
  pub newly_written_lem :
      (bytes : List ℕ) (w v : World)
      → serial_writes v.calls ≡ bytes ∷ serial_writes w.calls
      → newly_written w v ≡ bytes
  newly_written_lem bytes w v e = rw (e, one_more (length (serial_writes w.calls))) refl

  pub written_silent :
      (n : ℕ) (w : World) → serial_writes (written n w).0.calls ≡ serial_writes w.calls
  unfolding written
  written_silent n w = ground arith

  pub sends_from_start :
      (n : ℕ) (f : TxFrame) (w : World)
      → w.iface.tx_frame ≡ some f
      → w.iface.txpos ≡ 0
      → 0 < w.iface.txlen
      → if_tx (some n) w ≡ ok (written n (call (serial_write (take w.iface.txlen w.iface.txbuf)) w))
  unfolding if_tx write_rest
  sends_from_start n f w held start pos = ground arith

  rewound :
      (f : TxFrame) (i : Interface) (writes : List (List ℕ)) (off : Bool) (w : World)
      → InFlight f i writes off w
      → let v = tx_timeout_fired w in
        (v.iface.tx_frame ≡ (if off then none else some f))
        × (v.iface.txpos ≡ 0)
        × (v.iface.txlen ≡ i.txlen)
        × (v.iface.txbuf ≡ i.txbuf)
        × (serial_writes v.calls ≡ writes)
  unfolding tx_timeout_fired sric_if_tx_ready
  rewound f i writes true w h = ground arith
  rewound f i writes false w h = ground arith

  retry-InFlight :
      (n : ℕ) (f : TxFrame) (i : Interface) (writes : List (List ℕ)) (w : World)
      → InFlight f i writes false w
      → 0 < i.txlen
      → (w' : World) × (retry n w ≡ ok w')
        × (serial_writes w'.calls ≡ take i.txlen i.txbuf ∷ writes)
  unfolding retry
  retry-InFlight n f i writes w h pos =
      let v = tx_timeout_fired w in
      let (held, start, len, text, silent) = rewound f i writes false w h in
      let offered = call (serial_write (take v.iface.txlen v.iface.txbuf)) v in
      (
        (written n offered).0,
        rw (sends_from_start n f v held start (rw len pos)) refl,
        rw (written_silent n offered, len, text, silent) refl,
      )

  -- What is written once the timer has fired, for whether the frame is cancelled.
  abbrev pub Resends : Bool → ℕ → World → World → Type 0
  Resends true n w v = Unit {0}
  Resends false n w v =
      (w' : World) × (retry n v ≡ ok w')
      × (serial_writes w'.calls ≡ take w.iface.txlen w.iface.txbuf ∷ serial_writes w.calls)

  resends_lem :
      (off : Bool) (n : ℕ) (f : TxFrame) (w v : World)
      → 0 < w.iface.txlen
      → InFlight f w.iface (serial_writes w.calls) off v
      → Resends off n w v
  resends_lem true n f w v pos h = tt
  resends_lem false n f w v pos h = retry-InFlight n f w.iface (serial_writes w.calls) v h pos

  pub if_tx-retransmits :
      (es : List WaitEvent) (n : ℕ) (f : TxFrame) (w : World)
      → w.iface.tx_frame ≡ some f
      → w.iface.txpos ≡ w.iface.txlen
      → 0 < w.iface.txlen
      → let off = cancelled_after f w.iface.frame_cancelled es in
        (v : World) × (wait_all es w ≡ ok v)
        × (v.iface.tx_frame ≡ some f)
        × (serial_writes v.calls ≡ serial_writes w.calls)
        × ((tx_timeout_fired v).iface.tx_frame ≡ (if off then none else some f))
        × (serial_writes (tx_timeout_fired v).calls ≡ serial_writes w.calls)
        × Resends off n w v
  if_tx-retransmits es n f w held sent pos =
      let before = w.iface.frame_cancelled in
      let writes = serial_writes w.calls in
      let off = cancelled_after f before es in
      let start : InFlight f w.iface writes before w = record {
        in_hand = held;
        sent = sent;
        flag = refl;
        text = refl;
        text_length = refl;
        silent = refl;
      } in
      let (v, waits, k) = wait_all-InFlight es f w.iface writes before w start in
      let (kept, _, _, _, silent) = rewound f w.iface writes off v k in
      (v, waits, k.in_hand, k.silent, kept, silent, resends_lem off n f w v pos k)
