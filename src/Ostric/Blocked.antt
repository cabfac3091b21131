-- ===== src/Ostric/Blocked.antt =====
-- ostric/ostric.c: a frame that is cut short by the next one.
use sricd.Base.{
  Option, none, take, length-take, length-append, ℕ, suc, ◌+◌, ◌-◌, ◌%◌, ◌≤◌, ◌<◌, ◌≡◌, ◌∙◌, inl,
  inr, sym, ap, refl, Bool, true, false, ◌&&◌, Bool-cases, List, [], ◌∷◌, ◌++◌, some, arith, length,
  drop, overwrite, get_or, append_assoc, append-nil, ltb-true, ◌==◌, if◌then◌else◌,
}
use sricd.World.{ok, ◌>>=◌}
use sricd.World.Socket.{limited, Socket, read_result, after_read}
use sricd.Escape.RoundTrip.{escape_bytes, IsBoundary}
use sricd.Ostric.{Bus}
use sricd.Ostric.Token.{advance_token}
use sricd.Ostric.Intake.{try_parsing_stuff-text}
use sricd.Ostric.Parsing.{
  starts_frame, process_command, try_parsing_stuff, command_length, shifted_out, pty_buf_size,
  received, main_round, read_frames, try_reading_stuff,
}

-- A framing byte cuts a frame short behind its length byte.
pub record CutShort (bus : Bus) : Type 0 where
  pub start : ℕ
  pub next : ℕ
  pub body : List ℕ
  pub rest : List ℕ
  pub starts : starts_frame start ≡ true
  pub cut : IsBoundary (next ∷ [])
  pub held : bus.pty_buf ≡ start ∷ escape_bytes body ++ (next ∷ rest)
  pub has_length : 3 ≤ length body
  pub short : length body + 1 < get_or body 2 0 % 0x40 + 6
  pub fits : length body ≤ 127
  pub room : length bus.pty_buf ≤ pty_buf_size

get_or-third : (xs ys : List ℕ) → 3 ≤ length xs → get_or (xs ++ ys) 2 0 ≡ get_or xs 2 0
get_or-third [] ys enough = absurd (omega arith)
get_or-third (a ∷ []) ys enough = absurd (omega arith)
get_or-third (a ∷ b ∷ []) ys enough = absurd (omega arith)
get_or-third (a ∷ b ∷ c ∷ xs) ys enough = refl

process_command-short :
    (buffer : List ℕ) (len : ℕ) (bus : Bus)
    → len < command_length buffer
    → process_command buffer len bus ≡ (bus, true)
unfolding process_command
process_command-short buffer len bus short = rw (ltb-true len (command_length buffer) short) refl

try_parsing_stuff-CutShort :
    (stale : List ℕ) (bus : Bus) → CutShort bus → try_parsing_stuff stale bus ≡ bus
try_parsing_stuff-CutShort stale bus c =
    let buffer = overwrite (c.start ∷ c.body) stale in
    let rest = c.next ∷ c.rest in
    try_parsing_stuff-text stale c.start c.body rest bus c.starts c.fits c.room c.cut c.held
    ∙ ap (shifted_out (c.start ∷ escape_bytes c.body ++ rest) (length (escape_bytes c.body) + 1)) (
        process_command-short buffer (length c.body + 1) bus (
          omega
            (arith, c.short, get_or-third c.body (drop (suc (length c.body)) stale) c.has_length)))

-- The other bus begins with the same frame, which is cut short by the same byte.
abbrev pub SameFrame : {bus : Bus} → CutShort bus → Bus → Type 0
SameFrame c bus' =
    (c' : CutShort bus') × (c'.start ≡ c.start) × (c'.body ≡ c.body) × (c'.next ≡ c.next)

-- More may have come in behind.
still_cut :
    (bytes : List ℕ) (bus bus' : Bus)
    → bus'.pty_buf ≡ bus.pty_buf ++ bytes
    → length bus.pty_buf + length bytes ≤ pty_buf_size
    → (c : CutShort bus) → SameFrame c bus'
still_cut bytes bus bus' buf room c = (
  record {
    start = c.start;
    next = c.next;
    body = c.body;
    rest = c.rest ++ bytes;
    starts = c.starts;
    cut = c.cut;
    held =
        buf
        ∙ ap (λ buf. buf ++ bytes) c.held
        ∙ append_assoc (c.start ∷ escape_bytes c.body) (c.next ∷ c.rest) bytes;
    has_length = c.has_length;
    short = c.short;
    fits = c.fits;
    room = omega (arith, ap length buf, length-append bus.pty_buf bytes, room);
  },
  refl,
  refl,
  refl,
)

advance_token-pty :
    (bus : Bus) → ((advance_token bus).pty ≡ bus.pty) × ((advance_token bus).pty_buf ≡ bus.pty_buf)
unfolding advance_token
advance_token-pty bus = elim (Bool-cases (bus.gw_keep_token && bus.gw_has_token)) [
  | inl kept ↦ rw kept (refl, refl)
  | inr moves ↦ rw moves (refl, refl)
]

-- `read` gives no more bytes than it is asked for.
limited_bounds :
    (limits : List (Option ℕ)) (text bytes : List ℕ)
    → limited limits text ≡ some bytes
    → length bytes ≤ length text
limited_bounds [] text bytes e = let same : text ≡ bytes = cc e in rw (← same) (omega arith)
limited_bounds (none ∷ limits) text bytes e = absurd (cc e)
limited_bounds (some n ∷ limits) text bytes e =
    let same : take n text ≡ bytes = cc e in rw (← same) (omega (arith, length-take n text))

read_bounds :
    (n : ℕ) (s : Socket) (bytes : List ℕ) → read_result n s ≡ some bytes → length bytes ≤ n
read_bounds n s bytes e =
    omega
      (arith, limited_bounds s.read_limits (take n s.incoming) bytes e, length-take n s.incoming)

not_zero : (n : ℕ) → (suc n == 0) ≡ false
not_zero n = ground arith

not_empty : (bus : Bus) → CutShort bus → (length bus.pty_buf == 0) ≡ false
not_empty bus c =
    ap (λ buf. length buf == 0) c.held ∙ not_zero (length (escape_bytes c.body ++ c.next ∷ c.rest))

-- A frame that another framing byte cuts short, behind its length byte, blocks the simulated bus. A
-- round of `main` in which no read fails, whatever it reads, leaves what the buffer held where it
-- was, that frame at its front; the bytes read, if the terminal was readable, come behind; the
-- buffer again begins with a frame that is cut short, the same one; and nothing is written.
pub main_round-CutShort :
    (stale bytes : List ℕ) (readable : Bool) (bus : Bus) (c : CutShort bus)
    → read_result (pty_buf_size - length bus.pty_buf) bus.pty ≡ some bytes
    → (bus' : Bus) × (main_round stale readable bus ≡ ok bus')
      × (bus'.pty_buf ≡ bus.pty_buf ++ (if readable then bytes else []))
      × SameFrame c bus'
      × (bus'.pty.written ≡ bus.pty.written)
unfolding main_round read_frames try_reading_stuff
main_round-CutShort stale bytes false bus c reads = (
  advance_token bus,
  rw (not_empty bus c) (ap (λ b. ok (advance_token b)) (try_parsing_stuff-CutShort stale bus c)),
  (advance_token-pty bus).1 ∙ sym (append-nil bus.pty_buf),
  still_cut [] bus (advance_token bus) ((advance_token-pty bus).1 ∙ sym (append-nil bus.pty_buf))
      (omega (arith, c.room)) c,
  ap (λ (s : Socket). s.written) (advance_token-pty bus).0,
)
main_round-CutShort stale bytes true bus c reads =
    let left = pty_buf_size - length bus.pty_buf in
    let room : length bus.pty_buf + length bytes ≤ pty_buf_size =
      omega (arith, c.room, read_bounds left bus.pty bytes reads) in
    let pty = after_read (pty_buf_size - length bus.pty_buf) bus.pty in
    let bus' : Bus = record bus { pty_buf = bus.pty_buf ++ bytes; pty = pty } in
    let c' : CutShort bus' = (still_cut bytes bus bus' refl room c).0 in
    (
      advance_token bus',
      ap
            (λ r.
              received r (record bus { pty = pty })
              >>= (λ b. ok (try_parsing_stuff stale b))
              >>= λ b. ok (advance_token b))
            reads
          ∙ ap (λ b. ok (advance_token b)) (try_parsing_stuff-CutShort stale bus' c'),
      (advance_token-pty bus').1,
      still_cut bytes bus (advance_token bus') (advance_token-pty bus').1 room c,
      ap (λ (s : Socket). s.written) (advance_token-pty bus').0,
    )
