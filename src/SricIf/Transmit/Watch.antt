-- ===== src/SricIf/Transmit/Watch.antt =====
-- sricd/sric-if.c: when `if_tx` gives up its watch on the serial port.
use sricd.Base.{
  same_or_not, ℕ, ◌-◌, ◌≤◌, ◌<◌, ◌≡◌, ◌≢◌, ◌⊎◌, ◌∙◌, ap, refl, Bool, true, false, List, [], ◌∷◌,
  ◌++◌, Option, none, some, arith, Option-cases, inl, inr, if◌then◌else◌, length, take, drop,
}
use sricd.World.{World, Platform, Interface, TxFrame, serial_write, call, ok, ◌>>=◌}
use sricd.OutputQueue.{txq_next}
use sricd.OutputQueue.Laws.{visible, first_of, rest_of, txq_next_lem}
use sricd.SricIf.Transmit.{
  if_tx, write_rest, written, next_tx, visible_priority, load_frame, load_next, watch_removed,
}
use sricd.SricIf.Transmit.Wire.{load_frame_lem, wire_bytes}

-- The frames that `next_tx` can get.
abbrev pub in_reach : World → List TxFrame
in_reach w = visible (visible_priority w.iface.enumerated) w

-- A frame that was sent in full has its timer running.
abbrev pub TimerSet : World → Type 0
TimerSet w =
    (f : TxFrame)
    → w.iface.tx_frame ≡ some f
    → w.iface.txpos ≡ w.iface.txlen
    → 0 < w.iface.retxmit_timeout_id

-- A frame was sent in full, and its timer runs.
pub record Awaiting (w : World) : Type 0 where
  pub frame : TxFrame
  pub in_hand : w.iface.tx_frame ≡ some frame
  pub sent : w.iface.txpos ≡ w.iface.txlen
  pub timer : 0 < w.iface.retxmit_timeout_id

-- There is nothing to send.
pub record Drained (w : World) : Type 0 where
  pub in_hand : w.iface.tx_frame ≡ none
  pub queue : in_reach w ≡ []

-- The value returned is whether the watch stays.
pub record Attends (w w' : World) (stays : Bool) : Type 0 where
  pub timer : TimerSet w'
  pub kept : stays ≡ true → w'.iface.write_srcid ≡ w.iface.write_srcid
  pub removed : stays ≡ false → w'.iface.write_srcid ≡ 0
  pub idle : stays ≡ false → Awaiting w' ⊎ Drained w'

load_next-none :
    (p : Option TxFrame × World)
    → p.0 ≡ none
    → load_next p ≡ ok (record (p.1) { iface = record (p.1.iface) { tx_frame = none } }, false)
load_next-none (none, w) e = refl
load_next-none (some f, w) e = cc

load_next-some :
    (p : Option TxFrame × World) (f : TxFrame) (i : Interface)
    → p.0 ≡ some f
    → load_frame f p.1.iface ≡ ok i
    → load_next p ≡ ok (record (p.1) { iface = i }, true)
load_next-some (none, w) f i e loads = cc
load_next-some (some g, w) f i e loads = let same : g ≡ f = cc in rw (same, loads) refl

nothing_behind : (fs : List TxFrame) → first_of fs ≡ none → rest_of fs ≡ []
nothing_behind [] e = refl
nothing_behind (f ∷ fs) e = cc

-- What is in reach depends on the queues and on whether the bus is enumerated.
same_queues :
    (v w : World) (enumerated : Bool)
    → w.tx_queue_0 ≡ v.tx_queue_0
    → w.tx_queue_1 ≡ v.tx_queue_1
    → visible (visible_priority enumerated) w ≡ visible (visible_priority enumerated) v
same_queues v w true p q = rw (p, q) refl
same_queues v w false p q = p

visible_same :
    (v w : World) (enumerated : Bool)
    → v.iface.enumerated ≡ enumerated
    → w.tx_queue_0 ≡ v.tx_queue_0
    → w.tx_queue_1 ≡ v.tx_queue_1
    → visible (visible_priority v.iface.enumerated) w ≡ visible (visible_priority enumerated) v
visible_same v w enumerated e p q =
    ap (λ b. visible (visible_priority b) w) e ∙ same_queues v w enumerated p q

module _ ⦃env : Platform⦄ where
  written-Attends :
      (n : ℕ) (f : TxFrame) (v : World)
      → v.iface.tx_frame ≡ some f
      → Attends v (written n v).0 (written n v).1
  unfolding written
  written-Attends n f v held = record {
    timer = λ g in_hand sent. ground (arith, env.source_id_pos v.calls);
    kept = λ e. ground arith;
    removed = λ e. ground arith;
    idle = λ e. inl (record {
      frame = f;
      in_hand = ground arith;
      sent = ground arith;
      timer = ground (arith, env.source_id_pos v.calls);
    });
  }

  -- `if_tx` on a world, where `write` accepts `n` bytes.
  abbrev Attended : ℕ → World → Type 0
  Attended n w =
      (w' : World) × (stays : Bool) × (if_tx (some n) w ≡ ok (w', stays)) × Attends w w' stays

  frame_waits :
      (n : ℕ) (f : TxFrame) (w : World)
      → TimerSet w
      → w.iface.tx_frame ≡ some f
      → w.iface.txpos ≡ w.iface.txlen
      → Attended n w
  unfolding if_tx
  frame_waits n f w timer held sent = (
    record w { iface = record (w.iface) { write_srcid = 0 } },
    false,
    ground arith,
    record {
      timer = timer;
      kept = λ e. cc;
      removed = λ e. refl;
      idle =
          λ e. inl (record { frame = f; in_hand = held; sent = sent; timer = timer f held sent });
    },
  )

  frame_goes_on :
      (n : ℕ) (f : TxFrame) (w : World)
      → w.iface.tx_frame ≡ some f
      → w.iface.txpos ≢ w.iface.txlen
      → Attended n w
  unfolding if_tx write_rest
  frame_goes_on n f w held more =
      let rest = take (w.iface.txlen - w.iface.txpos) (drop w.iface.txpos w.iface.txbuf) in
      let v = call (serial_write rest) w in
      let after = written-Attends n f v held in
      (
        (written n v).0,
        (written n v).1,
        ground arith,
        record {
          timer = after.timer;
          kept = after.kept;
          removed = after.removed;
          idle = after.idle;
        },
      )

  begins :
      (n : ℕ) (w : World)
      → w.iface.tx_frame ≡ none
      → if_tx (some n) w
        ≡ (next_tx w >>= λ r. (if r.1 then write_rest (some n) r.0 else ok (watch_removed r.0)))
  unfolding if_tx
  begins n w held = ground arith

  nothing_left :
      (n : ℕ) (w : World) → w.iface.tx_frame ≡ none → first_of (in_reach w) ≡ none → Attended n w
  unfolding next_tx
  nothing_left n w held empty =
      let popped = txq_next (visible_priority w.iface.enumerated) w in
      let v = popped.1 in
      let (front, back, _, _, same) = txq_next_lem (visible_priority w.iface.enumerated) w in
      let port = ap (λ (u : World). u.iface) same in
      (
        record v { iface = record (v.iface) { tx_frame = none; write_srcid = 0 } },
        false,
        rw (begins n w held, load_next-none popped (front ∙ empty)) refl,
        record {
          timer = λ g in_hand sent. cc;
          kept = λ e. cc;
          removed = λ e. refl;
          idle = λ e. inr (record {
            in_hand = refl;
            queue =
                visible_same v
                  (record v { iface = record (v.iface) { tx_frame = none; write_srcid = 0 } })
                  w.iface.enumerated (ap (λ (i : Interface). i.enumerated) port) refl refl
                ∙ back
                ∙ nothing_behind (in_reach w) empty;
          });
        },
      )

  frame_begins :
      (n : ℕ) (f : TxFrame) (w : World)
      → w.iface.tx_frame ≡ none
      → first_of (in_reach w) ≡ some f
      → length f.payload ≤ 64
      → Attended n w
  unfolding next_tx write_rest
  frame_begins n f w held first fits =
      let popped = txq_next (visible_priority w.iface.enumerated) w in
      let (front, back, _, _, same) = txq_next_lem (visible_priority w.iface.enumerated) w in
      let port = ap (λ (u : World). u.iface) same in
      let (spare, loads) = load_frame_lem f popped.1.iface fits in
      let i : Interface = record (popped.1.iface) {
        tx_frame = some f;
        frame_cancelled = false;
        txbuf = wire_bytes f ++ spare;
        txlen = length (wire_bytes f);
        txpos = 0;
      } in
      let v = record (popped.1) { iface = i } in
      let offered = call (serial_write (take (i.txlen - 0) (drop 0 i.txbuf))) v in
      let after = written-Attends n f offered refl in
      (
        (written n offered).0,
        (written n offered).1,
        rw (begins n w held, load_next-some popped f i (front ∙ first) loads) refl,
        record {
          timer = after.timer;
          kept = λ e. after.kept e ∙ ap (λ (j : Interface). j.write_srcid) port;
          removed = after.removed;
          idle = after.idle;
        },
      )

  pub if_tx-Attends :
      (n : ℕ) (w : World)
      → TimerSet w
      → ((f : TxFrame) → first_of (in_reach w) ≡ some f → length f.payload ≤ 64)
      → (w' : World) × (stays : Bool) × (if_tx (some n) w ≡ ok (w', stays)) × Attends w w' stays
  if_tx-Attends n w timer fits = elim (Option-cases w.iface.tx_frame) [
    | inl held ↦ elim (Option-cases (first_of (in_reach w))) [
      | inl empty ↦ nothing_left n w held empty
      | inr (f, first) ↦ frame_begins n f w held first (fits f first)
    ]
    | inr (f, held) ↦ elim (same_or_not w.iface.txpos w.iface.txlen) [
      | inl sent ↦ frame_waits n f w timer held sent
      | inr more ↦ frame_goes_on n f w held more
    ]
  ]
