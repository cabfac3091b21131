-- ===== src/SricIf/Link.antt =====
-- sricd/sric-if.c: a frame that `next_tx` puts on the wire is the frame that `advance_rx` takes off
-- it.
use sricd.Base.{
  ℕ, ◌+◌, ◌%◌, ◌≤◌, ◌<◌, ◌≡◌, ◌∙◌, sym, ap, refl, true, false, List, [], ◌∷◌, ◌++◌, arith, some,
  length, take, drop, overwrite, take-append,
}
use sricd.World.{Interface, TxFrame, type_byte, ok}
use sricd.Escape.RoundTrip.{escape_bytes, escape_bytes_bounds}
use sricd.SricIf.Receive.{
  rxbuf_size, unesc_size, is_framing_byte, advance_rx, frame_complete, read_bytes, read_incoming,
}
use sricd.SricIf.Receive.Bounds.{RxBounds}
use sricd.SricIf.Transmit.{build_frame, load_frame}
use sricd.SricIf.Transmit.Wire.{
  frame_body, wire_bytes, type_byte-framing, build_frame_lem, length-frame_body, load_frame_lem,
}
use sricd.SricIf.Receive.Unescaping.{at_frame, advance_rx_frame}
use sricd.SricIf.Receive.CheckSum.{frame_complete_lem}

-- A receiver with a whole frame in front of it, whatever stood in its buffers, unescapes it.
pub advance_rx_body :
    (t : ℕ) (body rest u : List ℕ) (j : Interface)
    → is_framing_byte t ≡ true
    → 0 < length body
    → length body ≤ 69
    → length u ≡ unesc_size
    → (left more : List ℕ) × (advance_rx (
          at_frame t
            (escape_bytes body ++ rest)
            (length (escape_bytes body))
            (record j { unesc_rx = u }))
        ≡ ok (
          record j {
            unesc_rx = (t ∷ body) ++ more;
            unesc_pos = 1 + length body;
            rxbuf = left;
            rxpos = 0;
          },
          true,
        ))
advance_rx_body t body rest [] j framing pos fits size = absurd (omega arith)
advance_rx_body t body rest (x ∷ u) j framing pos fits size =
    let (left, e) = advance_rx_frame t x body rest u j framing pos fits in
    (left, drop (length body) u, e)

-- What stands in the receiver then is a complete frame.
got_frame :
    (f : TxFrame) (left more : List ℕ) (j : Interface)
    → length f.payload ≤ 64
    → let got = record j {
      unesc_rx = (type_byte f.kind ∷ frame_body f) ++ more;
      unesc_pos = 1 + length (frame_body f);
      rxbuf = left;
      rxpos = 0;
    } in
      (frame_complete got ≡ true) × (take got.unesc_pos got.unesc_rx ≡ build_frame f)
unfolding build_frame
got_frame f left more j h =
    let body = type_byte f.kind ∷ frame_body f in
    let count : 1 + length (frame_body f) ≡ 6 + length f.payload % 256 =
      omega (arith, length-frame_body f h) in
    let size : 1 + length (frame_body f) ≡ length body = omega arith in
    (
      rw count (frame_complete_lem f more (record j { rxbuf = left; rxpos = 0 }) h),
      rw size (take-append body more ∙ sym (build_frame_lem f)),
    )

pub read_wire :
    (wire : List ℕ) (j : Interface)
    → 0 < length wire
    → length wire ≤ rxbuf_size
    → j.rxpos ≡ 0
    → read_incoming (read_bytes wire) j
      ≡ ok (record j { rxbuf = overwrite wire j.rxbuf; rxpos = length wire })
unfolding read_incoming
read_wire wire j pos fits e =
    let none_before : take j.rxpos j.rxbuf ≡ [] = ap (λ n. take n j.rxbuf) e in
    let all_after : drop j.rxpos j.rxbuf ≡ j.rxbuf = ap (λ n. drop n j.rxbuf) e in
    rw (none_before, all_after) (ground arith)

-- The bytes that `next_tx` leaves in `txbuf` for a frame of at most 64 bytes of payload, read in
-- one piece by a receiver with nothing left to read, are unescaped by one call of `advance_rx` to
-- the frame that was built, whatever the receiver had unescaped before; its length and its check
-- sum are found valid, and no input is left over.
pub receive-transmit :
    (f : TxFrame) (i j : Interface)
    → length f.payload ≤ 64
    → RxBounds j
    → j.rxpos ≡ 0
    → (sent read got : Interface) × (load_frame f i ≡ ok sent)
      × (read_incoming (read_bytes (take sent.txlen sent.txbuf)) j ≡ ok read)
      × (advance_rx read ≡ ok (got, true))
      × (frame_complete got ≡ true)
      × (take got.unesc_pos got.unesc_rx ≡ build_frame f)
      × (got.rxpos ≡ 0)
receive-transmit f i j h b e =
    let body = frame_body f in
    let wire = wire_bytes f in
    let count = length-frame_body f h in
    let size = escape_bytes_bounds body in
    let (spare, loaded) = load_frame_lem f i h in
    let (left, more, got) =
      advance_rx_body (type_byte f.kind) body (drop (length wire) j.rxbuf) j.unesc_rx j
        (type_byte-framing f.kind) (omega arith) (omega arith) b.unesc_length in
    (
      record i {
        tx_frame = some f;
        frame_cancelled = false;
        txbuf = wire ++ spare;
        txlen = length wire;
        txpos = 0;
      },
      record j { rxbuf = overwrite wire j.rxbuf; rxpos = length wire },
      record j {
        unesc_rx = (type_byte f.kind ∷ body) ++ more;
        unesc_pos = 1 + length body;
        rxbuf = left;
        rxpos = 0;
      },
      loaded,
      rw (take-append wire spare) (read_wire wire j (omega arith) (omega arith) e),
      got,
      (got_frame f left more j h).0,
      (got_frame f left more j h).1,
      refl,
    )
