-- ===== src/Ostric/Wire.antt =====
-- ostric/reply.c and sricd/sric-if.c: an answer of the bus, and a frame that the daemon sends it.
use sricd.Base.{
  ℕ, suc, ◌+◌, ◌/◌, ◌%◌, ◌≤◌, ◌≡◌, ◌∙◌, sym, ap, refl, true, false, List, [], ◌∷◌, ◌++◌, arith,
  length, take, drop, overwrite, length-append, take-append, ==_refl,
}
use sricd.World.{Interface, ok}
use sricd.World.Socket.{Socket}
use sricd.Crc16.{crc16}
use sricd.Escape.{escape_frame}
use sricd.Escape.Laws.{take_all}
use sricd.Escape.RoundTrip.{escape_bytes, escape_bytes_bounds, escape_frame_fits}
use sricd.SricIf.Receive.{advance_rx, frame_complete, read_bytes, read_incoming}
use sricd.SricIf.Receive.Bounds.{RxBounds}
use sricd.SricIf.Receive.CheckSum.{check_sum_at, complete_text}
use sricd.SricIf.Link.{advance_rx_body, read_wire}
use sricd.Ostric.{reply_frame, reply_bytes, escaped_reply, send_msg}

abbrev reply_head : ℕ → ℕ → List ℕ → List ℕ
reply_head src dst payload = 0x7E ∷ dst % 256 ∷ src % 0x80 ∷ length payload % 256 ∷ payload

abbrev pub reply_body : ℕ → ℕ → List ℕ → List ℕ
reply_body src dst payload = drop 1 (reply_frame src dst payload)

reply_frame_head :
    (src dst : ℕ) (payload : List ℕ)
    → 0x7E ∷ reply_body src dst payload ≡ reply_frame src dst payload
unfolding reply_frame
reply_frame_head src dst payload = refl

pub length-reply_body :
    (src dst : ℕ) (payload : List ℕ) → length (reply_body src dst payload) ≡ 5 + length payload
unfolding reply_frame
length-reply_body src dst payload =
    let c = crc16 (reply_head src dst payload) (length payload + 4) in
    omega (arith, length-append payload (c % 256 ∷ c / 256 % 256 ∷ []))

pub reply_bytes_lem :
    (src dst : ℕ) (payload : List ℕ)
    → length payload ≤ 64
    → reply_bytes src dst payload ≡ 0x7E ∷ escape_bytes (reply_body src dst payload)
unfolding reply_bytes
reply_bytes_lem src dst payload fits =
    let body = reply_body src dst payload in
    let escaped = escape_bytes body in
    let size : 5 + length payload ≡ length body = sym (length-reply_body src dst payload) in
    let whole = take_all body (length body) (omega arith) in
    let more : length escaped + 1 ≡ suc (length escaped) = omega arith in
    let written =
      escape_frame_fits body (length body) 255
        (rw whole (omega (arith, escape_bytes_bounds body, size)))
        (rw whole (omega (arith, escape_bytes_bounds body, size))) in
    ap (λ n. escaped_reply (escape_frame body n 255)) size
    ∙ ap escaped_reply (rw whole at written)
    ∙ ap (λ n. take n (0x7E ∷ overwrite escaped body)) more
    ∙ ap (◌∷◌ 0x7E) (take-append escaped (drop (length escaped) body))

pub reply_complete :
    (src dst : ℕ) (payload more : List ℕ) (j : Interface)
    → length payload ≤ 64
    → frame_complete (record j {
      unesc_rx = (0x7E ∷ reply_body src dst payload) ++ more;
      unesc_pos = 6 + length payload;
    })
      ≡ true
unfolding reply_frame
reply_complete src dst payload more j fits =
    complete_text (reply_frame src dst payload ++ more) (length payload) j (omega arith) (
      check_sum_at (reply_head src dst payload) more (length payload + 4) (4 + length payload)
        (omega arith) (omega arith))

-- An answer of the simulated bus of at most 64 bytes, written in one piece, and read in one piece
-- by a daemon that has nothing left to read: `send_msg` returns 0, and one call of `advance_rx`
-- unescapes exactly the frame that was made, with the source, the destination and the payload
-- given; its length and its check sum are found valid, and no input is left over.
pub receive-send_msg :
    (src dst : ℕ) (payload : List ℕ) (pty : Socket) (j : Interface)
    → length payload ≤ 64
    → pty.write_limits ≡ []
    → RxBounds j
    → j.rxpos ≡ 0
    → (bytes : List ℕ) × (read got : Interface) × (send_msg src dst payload pty
        ≡ (record pty { written = pty.written ++ bytes }, false))
      × (read_incoming (read_bytes bytes) j ≡ ok read)
      × (advance_rx read ≡ ok (got, true))
      × (frame_complete got ≡ true)
      × (take got.unesc_pos got.unesc_rx ≡ reply_frame src dst payload)
      × (got.rxpos ≡ 0)
unfolding send_msg
receive-send_msg src dst payload pty j fits all b e =
    let body = reply_body src dst payload in
    let wire = 0x7E ∷ escape_bytes body in
    let size = length-reply_body src dst payload in
    let bounds = escape_bytes_bounds body in
    let (left, more, got) =
      advance_rx_body 0x7E body (drop (length wire) j.rxbuf) j.unesc_rx j refl (omega arith)
        (omega arith) b.unesc_length in
    let result = record j {
      unesc_rx = (0x7E ∷ body) ++ more;
      unesc_pos = 1 + length body;
      rxbuf = left;
      rxpos = 0;
    } in
    let count : 1 + length body ≡ 6 + length payload = omega arith in
    let whole : 1 + length body ≡ length (0x7E ∷ body) = omega arith in
    (
      wire,
      record j { rxbuf = overwrite wire j.rxbuf; rxpos = length wire },
      result,
      rw (all, reply_bytes_lem src dst payload fits, ==_refl (length wire)) refl,
      read_wire wire j (omega arith) (omega arith) e,
      got,
      rw count (reply_complete src dst payload more (record j { rxbuf = left; rxpos = 0 }) fits),
      rw whole (take-append (0x7E ∷ body) more) ∙ reply_frame_head src dst payload,
      refl,
    )
