-- ===== src/SricIf/Receive/Unescaping.antt =====
-- sricd/sric-if.c: one call of `advance_rx` on a whole frame.
use sricd.Base.{
  ◌%◌, ℕ, zero, suc, ◌+◌, ◌-◌, ◌≤◌, ◌<◌, ◌≡◌, ap, refl, true, List, [], ◌∷◌, ◌++◌, arith, length,
  take, drop, overwrite, length-append, take-append, append-nil,
}
use sricd.World.{Interface, ok}
use sricd.Escape.{unescape}
use sricd.Escape.RoundTrip.{escape_bytes_bounds, escape_bytes, unescape_loop-escape_bytes}
use sricd.SricIf.Receive.{
  is_framing_byte, shifted, rxbuf_shift, frame_start, rxbuf_shift_frame_start, unescape_more,
  begin_frame, resume, advance_rx,
}

overwrite-take : (n : ℕ) (xs : List ℕ) → n ≤ length xs → overwrite (take n xs) xs ≡ xs
overwrite-take zero xs h = refl
overwrite-take (suc n) [] h = absurd (omega arith)
overwrite-take (suc n) (x ∷ xs) h = ap (◌∷◌ x) (overwrite-take n xs (omega arith))

-- What `unescape` makes of a body that stands at the front of the receive buffer.
unescape_body :
    (body rest : List ℕ) (room : ℕ)
    → length body ≤ room
    → length body ≤ 127
    → room ≤ 255
    → unescape (escape_bytes body ++ rest) (length (escape_bytes body)) room
      ≡ record { spos = length (escape_bytes body); out = body }
unfolding unescape
unescape_body body rest room h small narrow =
    let size : length (escape_bytes body) % 256 ≡ length (escape_bytes body) =
      omega (arith, escape_bytes_bounds body) in
    let wide : room % 256 ≡ room = omega arith in
    rw (size, wide, take-append)
      (ground
        (arith, append-nil (escape_bytes body), unescape_loop-escape_bytes body [] room 0 [] h tt))

-- A receiver with `n + 1` bytes read, of which the first starts a frame.
abbrev pub at_frame : ℕ → List ℕ → ℕ → Interface → Interface
at_frame t rest n j = record j { rxbuf = t ∷ rest; rxpos = suc n }

frame_starts_here :
    (t : ℕ) (rest : List ℕ) (n : ℕ) (j : Interface)
    → is_framing_byte t ≡ true
    → n ≤ length rest
    → rxbuf_shift_frame_start (at_frame t rest n j) ≡ ok (at_frame t rest n j, true)
unfolding rxbuf_shift_frame_start rxbuf_shift frame_start
frame_starts_here t rest n j framing h =
    rw (framing, overwrite-take (suc n - 0) (t ∷ rest) (omega arith)) (ground arith)

begin_frame_lem :
    (t x : ℕ) (rest u : List ℕ) (n : ℕ) (j : Interface)
    → begin_frame (at_frame t rest n (record j { unesc_rx = x ∷ u }))
      ≡ ok (record j {
        unesc_rx = t ∷ u;
        unesc_pos = 1;
        rxbuf = shifted 1 (suc n) (t ∷ rest);
        rxpos = n;
      })
unfolding begin_frame rxbuf_shift
begin_frame_lem t x rest u n j = ground arith

shift_one :
    (t : ℕ) (E rest : List ℕ)
    → shifted 1 (suc (length E)) (t ∷ E ++ rest) ≡ E ++ drop (length E) (t ∷ E ++ rest)
shift_one t E rest =
    let n : suc (length E) - 1 ≡ length E = omega arith in rw (n, take-append E rest)

unescape_more_lem :
    (t : ℕ) (body rest u : List ℕ) (j : Interface)
    → length body ≤ 69
    → 0 < length body
    → unescape_more (record j {
      unesc_rx = t ∷ u;
      unesc_pos = 1;
      rxbuf = escape_bytes body ++ rest;
      rxpos = length (escape_bytes body);
    })
      ≡ ok (
        record j {
          unesc_rx = t ∷ overwrite body u;
          unesc_pos = 1 + length body;
          rxbuf =
              shifted
                (length (escape_bytes body))
                (length (escape_bytes body))
                (escape_bytes body ++ rest);
          rxpos = 0;
        },
        true,
      )
unfolding unescape_more rxbuf_shift
unescape_more_lem t body rest u j h pos =
    rw (unescape_body body rest 69 h (omega arith) (omega arith)) (ground arith)

pub advance_rx_frame :
    (t x : ℕ) (body rest u : List ℕ) (j : Interface)
    → is_framing_byte t ≡ true
    → 0 < length body
    → length body ≤ 69
    → (left : List ℕ) × (advance_rx (
          at_frame t
            (escape_bytes body ++ rest)
            (length (escape_bytes body))
            (record j { unesc_rx = x ∷ u }))
        ≡ ok (
          record j {
            unesc_rx = t ∷ overwrite body u;
            unesc_pos = 1 + length body;
            rxbuf = left;
            rxpos = 0;
          },
          true,
        ))
unfolding advance_rx resume
advance_rx_frame t x body rest u j framing pos fits =
    let E = escape_bytes body in
    let start = record j { unesc_rx = x ∷ u; unesc_pos = 0 } in
    let n_fits : length E ≤ length (E ++ rest) = omega (arith, length-append E rest) in
    let later = drop (length E) (t ∷ E ++ rest) in
    (
      shifted (length E) (length E) (E ++ later),
      rw framing (
          rw (frame_starts_here t (E ++ rest) (length E) start framing n_fits) (
            rw (begin_frame_lem t x (E ++ rest) u (length E) (record j { unesc_pos = 0 }))
              (rw (shift_one t E rest) (unescape_more_lem t body later u j fits pos)))),
    )
