-- ===== src/SricIf/Transmit.antt =====
-- sricd/sric-if.c: from the transmit queue to the bytes of the serial port.
pub mod Retry
pub mod Short
pub mod Watch
pub mod Wire
use sricd.Base.Int.{pos, negsuc}
use sricd.Base.{
  ℕ, ◌+◌, ◌-◌, ◌%◌, ◌/◌, Bool, true, false, not, ◌&&◌, ◌||◌, List, [], ◌∷◌, ◌++◌, Option, none,
  some, leb, ◌==◌, if◌then◌else◌, length, take, drop, overwrite,
}
use sricd.World.{
  World, Platform, Interface, TxFrame, type_byte, tag_eq, null, Outcome, ok, exited, aborted, fault,
  ◌>>=◌, call, timeout_add, tx_timeout, next_source_id, serial_write,
}
use sricd.Escape.{Escaped, escape_frame}
use sricd.Crc16.{crc16}
use sricd.OutputQueue.{Priority, pri_0, pri_1, txq_next}
use sricd.SricIf.Ready.{sric_if_tx_ready}

abbrev pub txbuf_size : ℕ
txbuf_size = 140

-- Header and payload; `len` is the payload's length, cut to a byte.
abbrev pub frame_head : TxFrame → List ℕ
frame_head f =
    let len = length f.payload % 256 in
    type_byte f.kind ∷ f.address % 256 ∷ 1 ∷ len ∷ take len f.payload

-- The frame as it stands in `txbuf` before it is escaped.
unfoldable pub build_frame : TxFrame → List ℕ
build_frame f =
    let head = frame_head f in
    let crc = crc16 head (4 + length f.payload % 256) in head ++ crc % 256 ∷ crc / 256 % 256 ∷ []

-- `g_assert(esclen > 0)`, and what follows it.
abbrev pub escaped_frame : Interface → List ℕ → Escaped → Outcome Interface
escaped_frame i buf e = elim e.result [
  | negsuc n ↦ aborted
  | pos esclen ↦
      if esclen == 0
      then aborted
      else ok (record i { txbuf = take 1 buf ++ e.buffer; txlen = (esclen + 1) % 256; txpos = 0 })
]

-- `next_tx` once the frame is built: all but its first byte is escaped, in place.
unfoldable pub escape_into_txbuf : List ℕ → ℕ → Interface → Outcome Interface
escape_into_txbuf bytes length_to_escape i =
    let buf = overwrite bytes i.txbuf in
    if leb (length bytes) txbuf_size
    then escaped_frame i buf (escape_frame (drop 1 buf) length_to_escape (txbuf_size - 1))
    else fault

-- The part of `next_tx` that follows the call of `txq_next`.
unfoldable pub load_frame : TxFrame → Interface → Outcome Interface
load_frame f i =
    escape_into_txbuf (build_frame f) (5 + length f.payload % 256)
      (record i { tx_frame = some f; frame_cancelled = false })

abbrev pub visible_priority : Bool → Priority
visible_priority true = pri_1
visible_priority false = pri_0

abbrev pub load_next : Option TxFrame × World → Outcome (World × Bool)
load_next (none, w) = ok (record w { iface = record (w.iface) { tx_frame = none } }, false)
load_next (some f, w) = load_frame f w.iface >>= λ i. ok (record w { iface = i }, true)

unfoldable pub next_tx : World → Outcome (World × Bool)
next_tx w = load_next (txq_next (visible_priority w.iface.enumerated) w)

abbrev is_some {ℓ} : {A : Type ℓ} → Option A → Bool
is_some none = false
is_some (some _) = true

-- Whether the sender of the frame in hand waits for an acknowledgement.
abbrev pub expects_ack : Option TxFrame → Bool
expects_ack none = false
expects_ack (some f) = not (tag_eq f.tag null || leb 0x80 (f.address % 256))

-- The label `empty`.
abbrev watch_removed : World → World × Bool
watch_removed w = (record w { iface = record (w.iface) { write_srcid = 0 } }, false)

module _ ⦃env : Platform⦄ where
  -- What follows the `write`, which returned `n`.
  unfoldable pub written : ℕ → World → World × Bool
  written n w =
      let pos = (w.iface.txpos + n) % 256 in
      let w1 = record w { iface = record (w.iface) { txpos = pos } } in
      if not (pos == w.iface.txlen)
      then (w1, true)
      else if not (expects_ack w.iface.tx_frame)
      then (record w1 { iface = record (w1.iface) { tx_frame = none } }, true)
      else watch_removed (
          call (timeout_add 50 tx_timeout)
            (record w1 { iface = record (w1.iface) { retxmit_timeout_id = next_source_id w1 } }))

  -- The `write` of what is left of the frame; `none` is -1.
  unfoldable pub write_rest : Option ℕ → World → Outcome (World × Bool)
  unfolding written
  write_rest none w = exited
  write_rest (some n) w =
      let rest = take (w.iface.txlen - w.iface.txpos) (drop w.iface.txpos w.iface.txbuf) in
      ok (written n (call (serial_write rest) w))

  -- The value of the flag is the value returned: whether the watch stays registered. The first
  -- argument is what `write` returns, if it is called.
  unfoldable pub if_tx : Option ℕ → World → Outcome (World × Bool)
  if_tx result w =
      if is_some w.iface.tx_frame && (w.iface.txpos == w.iface.txlen)
      then ok (watch_removed w)
      else if is_some w.iface.tx_frame
      then write_rest result w
      else (next_tx w >>= λ r. (if r.1 then write_rest result r.0 else ok (watch_removed r.0)))

  unfoldable pub tx_timeout_fired : World → World
  unfolding sric_if_tx_ready
  tx_timeout_fired w =
      let kept = (if w.iface.frame_cancelled then none else w.iface.tx_frame) in
      sric_if_tx_ready (record w { iface = record (w.iface) { tx_frame = kept; txpos = 0 } })
