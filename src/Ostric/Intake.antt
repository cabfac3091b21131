-- ===== src/Ostric/Intake.antt =====
-- ostric/ostric.c: what becomes of the bytes that the terminal delivers.
use sricd.Base.{
  ℕ, suc, ◌+◌, ◌-◌, ◌*◌, ◌%◌, ◌≤◌, ◌≡◌, ◌∙◌, sym, ap, refl, true, false, List, [], ◌∷◌, ◌++◌, arith,
  length, drop, overwrite, get_or, drop-append, ==_refl, ltb-false, ◌==◌, if◌then◌else◌,
}
use sricd.World.{TxFrame, FrameType, frame_sric, frame_gw_conf, type_byte}
use sricd.Crc16.{crc16}
use sricd.Escape.{Unescaped, unescape}
use sricd.Escape.Laws.{unescape-whole}
use sricd.Escape.RoundTrip.{escape_bytes, IsBoundary, unescape_loop-escape_bytes}
use sricd.SricIf.Receive.CheckSum.{check_sum_at, length-frame_head}
use sricd.SricIf.Transmit.{frame_head, build_frame}
use sricd.SricIf.Transmit.Wire.{
  frame_body, wire_bytes, length-frame_body, build_frame_lem, type_byte-framing,
}
use sricd.Ostric.{Bus}
use sricd.Ostric.Commands.{bus_command, gateway_command}
use sricd.Ostric.Parsing.{
  pty_buf_size, starts_frame, from_start, process_command, parse_frame, try_parsing_stuff,
  command_length, shifted_out,
}

-- An escaped text behind a framing byte, with a framing byte or nothing behind it.
unescape_text :
    (body rest : List ℕ)
    → length body ≤ 127
    → length (escape_bytes body ++ rest) ≤ 255
    → IsBoundary rest
    → unescape (escape_bytes body ++ rest) (length (escape_bytes body ++ rest)) 127
      ≡ record { spos = length (escape_bytes body); out = body }
unescape_text body rest fits short boundary =
    let zero_plus : 0 + length (escape_bytes body) ≡ length (escape_bytes body) = omega arith in
    unescape-whole (escape_bytes body ++ rest) 127 short (omega arith)
    ∙ unescape_loop-escape_bytes body rest 127 0 [] fits boundary
    ∙ ap (λ n. record { spos = n; out = body }) zero_plus

pub try_parsing_stuff-text :
    (stale : List ℕ) (t : ℕ) (body rest : List ℕ) (bus : Bus)
    → starts_frame t ≡ true
    → length body ≤ 127
    → length bus.pty_buf ≤ pty_buf_size
    → IsBoundary rest
    → bus.pty_buf ≡ t ∷ escape_bytes body ++ rest
    → try_parsing_stuff stale bus
      ≡ shifted_out
          (t ∷ escape_bytes body ++ rest)
          (length (escape_bytes body) + 1)
          (process_command (overwrite (t ∷ body) stale) (length body + 1) bus)
unfolding try_parsing_stuff parse_frame from_start
try_parsing_stuff-text stale t body rest bus starts fits room boundary held =
    let text = t ∷ escape_bytes body ++ rest in
    let found : from_start text ≡ text = rw starts refl in
    let size : length bus.pty_buf ≡ suc (length (escape_bytes body ++ rest)) = ap length held in
    rw (held, found)
      (ap
        (λ (u : Unescaped). shifted_out text (u.spos + 1) (
          process_command (overwrite (t ∷ u.out) stale) (length u.out + 1)
            (record bus { pty_buf = text })))
        (unescape_text body rest fits (omega (arith, size, room)) boundary))

-- What is done with a frame that is whole.
abbrev pub handled : FrameType → List ℕ → ℕ → Bus → Bus
handled frame_sric buffer len bus = bus_command buffer bus
handled frame_gw_conf buffer len bus = gateway_command buffer len bus

handled_lem :
    (k : FrameType) (buffer : List ℕ) (len : ℕ) (bus : Bus)
    → (if type_byte k == 0x8E then gateway_command buffer len bus else bus_command buffer bus)
      ≡ handled k buffer len bus
handled_lem frame_sric buffer len bus = refl
handled_lem frame_gw_conf buffer len bus = refl

process_command-whole :
    (buffer : List ℕ) (len m : ℕ) (bus : Bus)
    → get_or buffer 3 0 ≡ m
    → m ≤ 63
    → m + 6 ≤ len
    → crc16 buffer (4 + m) ≡ get_or buffer (4 + m) 0 + get_or buffer (4 + m + 1) 0 * 256
    → process_command buffer len bus ≡ (
      if get_or buffer 0 0 == 0x8E
          then gateway_command buffer (m + 6) bus
          else bus_command buffer bus,
      false,
    )
unfolding process_command
process_command-whole buffer len m bus size small held sum =
    let n : command_length buffer ≡ m + 6 = omega arith in
    let a : m + 6 - 2 ≡ 4 + m = omega arith in
    let b : m + 6 - 1 ≡ 4 + m + 1 = omega arith in
    rw
      (
        n,
        ltb-false len (m + 6) held,
        a,
        b,
        sum,
        ==_refl (get_or buffer (4 + m) 0 + get_or buffer (4 + m + 1) 0 * 256),
      )
      (ground arith)

process_command-frame :
    (f : TxFrame) (more : List ℕ) (bus : Bus)
    → length f.payload ≤ 63
    → process_command (build_frame f ++ more) (length (frame_body f) + 1) bus
      ≡ (handled f.kind (build_frame f ++ more) (length f.payload + 6) bus, false)
unfolding process_command build_frame
process_command-frame f more bus fits =
    let m = length f.payload in
    let same : m % 256 ≡ m = omega arith in
    let sum =
      check_sum_at (frame_head f) more (4 + m % 256) (4 + m) (omega (arith, length-frame_head f))
        (omega (arith, length-frame_head f)) in
    process_command-whole (build_frame f ++ more) (length (frame_body f) + 1) m bus same fits
      (omega (arith, length-frame_body f)) sum
    ∙ ap (λ b. (b, false)) (handled_lem f.kind (build_frame f ++ more) (m + 6) bus)

-- The buffer of the terminal, of 128 bytes at most, begins with a frame of the daemon with at most
-- 63 bytes of payload, as `next_tx` puts it on the wire; nothing or a framing byte follows. Then
-- `try_parsing_stuff` hands exactly that frame to the gateway or to the clients, as its type says,
-- and leaves what follows.
pub try_parsing_stuff-wire_bytes :
    (stale rest : List ℕ) (f : TxFrame) (bus : Bus)
    → length f.payload ≤ 63
    → length bus.pty_buf ≤ pty_buf_size
    → IsBoundary rest
    → bus.pty_buf ≡ wire_bytes f ++ rest
    → let buffer = overwrite (build_frame f) stale in
      try_parsing_stuff stale bus
      ≡ record (handled f.kind buffer (length f.payload + 6) bus) { pty_buf = rest }
try_parsing_stuff-wire_bytes stale rest f bus fits room boundary held =
    let body = frame_body f in
    let escaped = escape_bytes body in
    let text = wire_bytes f ++ rest in
    let n = length escaped + 1 in
    let one_more : n ≡ suc (length escaped) = omega arith in
    let done = handled f.kind (overwrite (build_frame f) stale) (length f.payload + 6) bus in
    try_parsing_stuff-text stale (type_byte f.kind) body rest bus (type_byte-framing f.kind)
      (omega (arith, length-frame_body f)) room boundary held
    ∙ ap (λ b. shifted_out text n (process_command (overwrite b stale) (length body + 1) bus))
        (sym (build_frame_lem f))
    ∙ ap (shifted_out text n)
        (process_command-frame f (drop (length (build_frame f)) stale) bus fits)
    ∙ ap (λ k. record done { pty_buf = drop k text }) one_more
    ∙ ap (λ buf. record done { pty_buf = buf }) (drop-append escaped rest)
