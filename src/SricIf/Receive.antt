-- ===== src/SricIf/Receive.antt =====
-- sricd/sric-if.c: from the bytes of the serial port to frames, and what a frame does.
pub mod Bounds
pub mod Termination
pub mod Unescaping
pub mod CheckSum
pub mod Whole
use sricd.Base.{
  ℕ, zero, suc, ◌+◌, ◌-◌, ◌*◌, ◌%◌, ◌/◌, Bool, true, false, not, ◌&&◌, ◌||◌, List, [], ◌∷◌, ◌++◌,
  Option, none, some, ltb, leb, ◌==◌, if◌then◌else◌, length, get_or, set, take, drop, overwrite,
}
use sricd.World.{
  World, Platform, Interface, TxFrame, Frame, PackedFrame, frame_sric, Tag, null, Outcome, ok,
  exited, aborted, no_fuel, ◌>>=◌, call, listen, source_remove,
}
use sricd.Escape.{unescape}
use sricd.Crc16.{crc16}
use sricd.Client.{client_push_rx}
use sricd.Device.{device_dispatch_note}
use sricd.OutputQueue.{pri_0, txq_push}
use sricd.SricEnum.{sric_enum_rx, low_bits, has_ack_bit}
use sricd.SricIf.Ready.{sric_if_tx_ready}

-- The sizes of the two receive buffers: `(SRIC_OVERHEAD + PAYLOAD_MAX) * 2` and half of it.
abbrev pub rxbuf_size : ℕ
rxbuf_size = 140

abbrev pub unesc_size : ℕ
unesc_size = 70

abbrev pub is_framing_byte : ℕ → Bool
is_framing_byte x = (x == 0x7E) || (x == 0x8E)

-- `memmove(rxbuf, rxbuf + n, rxpos - n)`: the bytes behind the moved ones stay as they were.
abbrev pub shifted : ℕ → ℕ → List ℕ → List ℕ
shifted n rxpos buf = overwrite (take (rxpos - n) (drop n buf)) buf

unfoldable pub rxbuf_shift : ℕ → Interface → Outcome Interface
rxbuf_shift n i =
    if leb n i.rxpos
    then ok (record i { rxbuf = shifted n i.rxpos i.rxbuf; rxpos = i.rxpos - n })
    else aborted

-- The index at which the loop of `rxbuf_shift_frame_start` stops, over the first `rxpos` bytes.
unfoldable pub frame_start : List ℕ → ℕ
frame_start [] = 0
frame_start (x ∷ xs) = if is_framing_byte x then 0 else suc (frame_start xs)

unfoldable pub rxbuf_shift_frame_start : Interface → Outcome (Interface × Bool)
unfolding rxbuf_shift frame_start
rxbuf_shift_frame_start i =
    let start = frame_start (take i.rxpos i.rxbuf) in
    if start == i.rxpos
    then ok (record i { rxpos = 0 }, false)
    else (rxbuf_shift start i >>= λ i'. ok (i', true))

-- The end of `advance_rx`: unescape what there is of the frame.
unfoldable pub unescape_more : Interface → Outcome (Interface × Bool)
unfolding rxbuf_shift unescape
unescape_more i = do
  let r = unescape i.rxbuf i.rxpos (unesc_size - i.unesc_pos)
  i' ← rxbuf_shift r.spos i
  ok (
    record i' {
      unesc_rx = take i.unesc_pos i.unesc_rx ++ overwrite r.out (drop i.unesc_pos i.unesc_rx);
      unesc_pos = i.unesc_pos + length r.out;
    },
    not (length r.out == 0),
  )

-- The part of `advance_rx` for `unesc_pos == 0`, once a framing byte stands first.
unfoldable pub begin_frame : Interface → Outcome Interface
unfolding rxbuf_shift
begin_frame i =
    rxbuf_shift 1 (record i { unesc_rx = set i.unesc_rx 0 (get_or i.rxbuf 0 0); unesc_pos = 1 })

-- The part of `advance_rx` for `unesc_pos == 0`.
unfoldable pub resume : Interface → Outcome (Interface × Bool)
unfolding rxbuf_shift_frame_start unescape_more begin_frame
resume i = do
  found ← rxbuf_shift_frame_start i
  (if found.1 then (begin_frame found.0 >>= unescape_more) else ok (found.0, false))

-- Whether `advance_rx` moves on to the next frame at once. The first byte is read also if `rxpos`
-- is 0.
abbrev pub restarts : Interface → Bool
restarts i = is_framing_byte (get_or i.rxbuf 0 0) || (i.unesc_pos == unesc_size)

unfoldable pub advance_rx : Interface → Outcome (Interface × Bool)
unfolding resume unescape_more
advance_rx i =
    let i1 = (if restarts i then record i { unesc_pos = 0 } else i) in
    if i1.unesc_pos == 0 then resume i1 else unescape_more i1

abbrev pub in_interface : Interface → World → World
in_interface i w = record w { iface = i }

-- The frame in `unesc_rx`, as a `packed_frame_t`.
abbrev pub packed : Interface → PackedFrame
packed i = record {
  dest_address = get_or i.unesc_rx 1 0;
  source_address = get_or i.unesc_rx 2 0;
  payload_len = get_or i.unesc_rx 3 0;
  payload = drop 4 i.unesc_rx;
}

abbrev pub frame_for_me : PackedFrame → Bool
frame_for_me f = low_bits f.dest_address == 1

-- `x | 0x80` for a byte.
abbrev pub with_ack_bit : ℕ → ℕ
with_ack_bit x = low_bits x + 0x80

-- The acknowledgement of a frame, and the note that a frame is.
abbrev pub acknowledgement : PackedFrame → TxFrame
acknowledgement f = record {
  kind = frame_sric;
  address = with_ack_bit f.source_address;
  tag = null;
  payload = [];
}

abbrev pub note_of : PackedFrame → Frame
note_of f = record {
  source_address = low_bits f.source_address;
  dest_address = low_bits f.dest_address;
  note = get_or f.payload 0 0;
  payload = take f.payload_len f.payload;
}

abbrev pub received_frame : PackedFrame → Frame
received_frame f = record {
  source_address = low_bits f.source_address;
  dest_address = low_bits f.dest_address;
  note = 0;
  payload = take f.payload_len f.payload;
}

-- Whether a whole frame with a valid check sum stands in `unesc_rx`.
unfoldable pub frame_complete : Interface → Bool
frame_complete i =
    let len = get_or i.unesc_rx 3 0 in
    let received = get_or i.unesc_rx (4 + len) 0 + get_or i.unesc_rx (4 + len + 1) 0 * 256 in
    leb 6 i.unesc_pos && leb (6 + len) i.unesc_pos && (crc16 i.unesc_rx (4 + len) == received)

-- The retransmission timer is removed.
abbrev pub timer_stopped : World → World
timer_stopped w =
    call (source_remove w.iface.retxmit_timeout_id)
      (record w { iface = record (w.iface) { retxmit_timeout_id = 0 } })

-- The transmitted frame is disposed of.
abbrev pub retire : World → World
retire w = record w { iface = record (w.iface) { tx_frame = none } }

module _ ⦃env : Platform⦄ where
  -- A frame that is no acknowledgement.
  unfoldable pub request_received : PackedFrame → World → Outcome World
  request_received f w =
      let queued = txq_push (acknowledgement f) pri_0 w in
      if f.payload_len == 0 then ok queued else device_dispatch_note (note_of f) queued

  -- An acknowledgement that is not discarded, before the transmitted frame is disposed of.
  unfoldable pub ack_handled : PackedFrame → TxFrame → World → Outcome World
  ack_handled f tx w =
      if w.iface.enumerated
      then client_push_rx tx.tag (received_frame f) w
      else (sric_enum_rx f w >>= λ r.
          (if r.1
            then ok r.0
            else ok
                (call listen (record (r.0) { iface = record (r.0.iface) { enumerated = true } }))))

  unfoldable pub ack_received : PackedFrame → TxFrame → World → Outcome World
  ack_received f tx w =
      let ready = sric_if_tx_ready (timer_stopped w) in
      if ready.iface.frame_cancelled
      then ok (retire ready)
      else (ack_handled f tx ready >>= λ w'. ok (retire w'))

  abbrev pub ack_for : Option TxFrame → PackedFrame → World → Outcome World
  ack_for none f w = ok w
  ack_for (some tx) f w = ack_received f tx w

  unfoldable pub proc_rx_frame : World → Outcome World
  proc_rx_frame w =
      let f = packed w.iface in
      if not (frame_for_me f)
      then ok w
      else if not (has_ack_bit f.dest_address)
      then request_received f w
      else ack_for w.iface.tx_frame f w

  -- The body of the loop of `rx`.
  unfoldable pub process_if_complete : World → Outcome World
  process_if_complete w =
      if frame_complete w.iface
      then (proc_rx_frame w >>= λ w'.
          ok (record w' { iface = record (w'.iface) { unesc_pos = 0 } }))
      else ok w

  -- A round of the loop of `rx`, once `advance_rx` has returned; `again` is the rest of the loop.
  abbrev pub round : Bool → (World → Outcome World) → World → Outcome World
  round true again w = process_if_complete w >>= again
  round false again w = ok w

  -- The loop of `rx`, on fuel.
  unfoldable pub rx_loop : ℕ → World → Outcome World
  rx_loop zero w = no_fuel
  rx_loop (suc fuel) w = do
    advanced ← advance_rx w.iface
    round advanced.1 (rx_loop fuel) (in_interface advanced.0 w)

-- What `read` on the serial port returns.
pub data ReadResult : Type 0 where
  read_error : ReadResult
  read_bytes : List ℕ → ReadResult

unfoldable pub read_incoming : ReadResult → Interface → Outcome Interface
read_incoming read_error i = exited
read_incoming (read_bytes bytes) i =
    if (length bytes == 0) && not (rxbuf_size - i.rxpos == 0)
    then exited
    else ok (record i {
      rxbuf = take i.rxpos i.rxbuf ++ overwrite bytes (drop i.rxpos i.rxbuf);
      rxpos = (i.rxpos + length bytes) % 256;
    })

module _ ⦃env : Platform⦄ where
  -- Each round that goes on takes a byte from `rxbuf`: so much fuel is enough.
  unfoldable pub rx : ReadResult → World → Outcome World
  rx result w = do i ← read_incoming result w.iface; rx_loop (i.rxpos + 1) (in_interface i w)
