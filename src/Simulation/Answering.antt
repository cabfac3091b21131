-- ===== src/Simulation/Answering.antt =====
-- ostric/ostric.c: a round of the bus in which one frame of the daemon arrives.
use sricd.Base.{
  ℕ, ◌+◌, ◌≤◌, ◌≡◌, ◌∙◌, ap, sym, refl, List, [], ◌∷◌, ◌++◌, arith, length, drop, overwrite,
  append-nil,
}
use sricd.World.{TxFrame, ok, ◌>>=◌}
use sricd.World.Socket.{Socket}
use sricd.Escape.Laws.{take_all}
use sricd.SricIf.Transmit.{build_frame}
use sricd.SricIf.Transmit.Wire.{wire_bytes}
use sricd.Ostric.{Bus}
use sricd.Ostric.Token.{advance_token}
use sricd.Ostric.Parsing.{try_reading_stuff, try_parsing_stuff, read_frames, main_round}
use sricd.Ostric.Intake.{handled, try_parsing_stuff-wire_bytes}
use sricd.Simulation.{bus_round}
use sricd.Simulation.Speaking.{length-wire_bytes}

-- A terminal that carries what it is given whole, with `bytes` written to it.
abbrev pub pty_with : List ℕ → Socket
pty_with bytes = record { incoming = []; written = bytes; read_limits = []; write_limits = [] }

drop_all : (xs : List ℕ) → drop (length xs) xs ≡ []
drop_all [] = refl
drop_all (x ∷ xs) = drop_all xs

abbrev pub quiet : Bus → List ℕ → List ℕ → Bus
quiet bus buf bytes = record bus { pty_buf = buf; pty = pty_with bytes }

reading_lem :
    (bytes : List ℕ) (bus : Bus)
    → length bytes ≤ 128
    → try_reading_stuff
        (record bus { pty_buf = []; pty = record (pty_with []) { incoming = bytes } })
      ≡ ok (quiet bus bytes [])
unfolding try_reading_stuff
reading_lem bytes bus fits =
    let whole = take_all bytes 128 fits in
    ap
      (λ taken. ok (record bus {
        pty_buf = taken;
        pty = record (pty_with []) { incoming = drop (length taken) bytes };
      }))
      whole
    ∙ ap
        (λ left.
          ok (record bus { pty_buf = bytes; pty = record (pty_with []) { incoming = left } }))
        (drop_all bytes)

-- The frame `f` makes the bus go from `b` to `b'` in a round, writing `reply`.
abbrev pub Answers : List ℕ → TxFrame → Bus → Bus → List ℕ → Type 0
Answers stale f b b' reply =
    let done =
      handled f.kind (overwrite (build_frame f) stale) (length f.payload + 6)
        (quiet b (wire_bytes f) []) in
    advance_token (record done { pty_buf = [] }) ≡ quiet b' [] reply

pub bus_round_lem :
    (stale reply : List ℕ) (f : TxFrame) (b b' : Bus)
    → length f.payload ≤ 58
    → Answers stale f b b' reply
    → bus_round stale (wire_bytes f) (quiet b [] []) ≡ ok (quiet b' [] [], reply)
unfolding bus_round main_round read_frames
bus_round_lem stale reply f b b' fits answers =
    let bounds = length-wire_bytes f fits in
    let held : wire_bytes f ≡ wire_bytes f ++ [] = sym (append-nil (wire_bytes f)) in
    ap
      (λ m.
        m
        >>= (λ d. ok (try_parsing_stuff stale d))
        >>= (λ d. ok (advance_token d))
        >>= (λ (d : Bus). ok (record d { pty = record (d.pty) { written = [] } }, d.pty.written)))
      (reading_lem (wire_bytes f) b (omega arith))
    ∙ ap
        (λ d. ok (
          record (advance_token d) { pty = record ((advance_token d).pty) { written = [] } },
          (advance_token d).pty.written,
        ))
        (try_parsing_stuff-wire_bytes stale [] f (quiet b (wire_bytes f) []) (omega arith)
          (omega (arith, bounds)) tt held)
    ∙ ap (λ (d : Bus). ok (record d { pty = record (d.pty) { written = [] } }, d.pty.written))
        answers
