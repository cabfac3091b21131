-- ===== src/Ostric/StartUp.antt =====
-- ostric/ostric.c: main, up to its loop, and a round of the loop with what `poll` returns.
use sricd.Base.{
  ℕ, suc, zero, ◌≤◌, ◌≡◌, ◌∙◌, ap, sym, refl, Bool, true, false, List, [], ◌∷◌, ◌++◌, Option, some,
  append_assoc, append-nil, drop, length, replicate, length-replicate, if◌then◌else◌,
}
use sricd.World.{Outcome, ok, exited, ◌>>=◌}
use sricd.World.Socket.{Socket}
use sricd.SricIf.Serial.{or_exit}
use sricd.Ostric.{Bus, generic, emit_ack}
use sricd.Ostric.Parsing.{main_round, new_client, generic_name, same_text, read_arguments}
use sricd.Ostric.Addressing.{row}
use sricd.Ostric.Enumeration.{acks, assign_rounds, start_round, enumeration_assigns}

-- The static `ostric_pty_fd` before a terminal is opened.
abbrev pub unopened : Socket
unopened = record { incoming = []; written = []; read_limits = []; write_limits = [] }

-- The statics of the program.
abbrev pub initial_bus : Bus
initial_bus = record {
  clients = [];
  gw_token_mode = false;
  gw_has_token = false;
  gw_keep_token = false;
  pty_buf = [];
  pty = unopened;
}

-- `main` up to its loop. `getpt` is what the call returns, a descriptor and the terminal behind it;
-- `unlocked` is whether `unlockpt` succeeds. A return of 1 is `exited`.
unfoldable pub main : Option (ℕ × Socket) → Bool → List (List ℕ) → Outcome (ℕ × Bus)
unfolding read_arguments
main getpt unlocked args = do
  bus ← read_arguments (drop 1 args) initial_bus
  (fd, terminal) ← or_exit getpt
  if unlocked then ok (fd, record bus { pty = terminal }) else exited

-- What `poll` says: an error, a hang-up or an error of the terminal, or whether it can be read.
pub data Polled : Type 0 where
  poll_failed hung_up : Polled
  polled : Bool → Polled

-- The body of the loop.
unfoldable pub poll_round : Polled → List ℕ → Bus → Outcome Bus
unfolding main_round
poll_round poll_failed stale bus = exited
poll_round hung_up stale bus = exited
poll_round (polled readable) stale bus = main_round stale readable bus

-- Clients are appended in the order of the arguments.
read_arguments-replicate :
    (n : ℕ) (bus : Bus)
    → read_arguments (replicate n generic_name) bus
      ≡ ok (record bus { clients = bus.clients ++ replicate n (new_client generic) })
unfolding read_arguments same_text
read_arguments-replicate zero bus =
    ap (λ cs. ok (record bus { clients = cs })) (sym (append-nil bus.clients))
read_arguments-replicate (suc n) bus =
    read_arguments-replicate n (record bus { clients = bus.clients ++ new_client generic ∷ [] })
    ∙ ap (λ cs. ok (record bus { clients = cs }))
        (append_assoc bus.clients (new_client generic ∷ []) (replicate n (new_client generic)))

enumerated :
    (n : ℕ) (waits : ℕ → ℕ) (more : List ℕ) (bus : Bus)
    → length bus.clients ≡ n
    → n ≤ 126
    → assign_rounds n 2 waits more (start_round more bus) ≡ record bus {
      clients = row n 2;
      gw_has_token = true;
      gw_keep_token = false;
      pty = acks n 2 (emit_ack 1 1 bus.pty);
    }
enumerated n waits more bus size fits =
    rw (sym size) (enumeration_assigns bus waits more (rw size fits))

abbrev pub begun : ℕ → Socket → Bus
begun n terminal = record initial_bus { clients = replicate n (new_client generic); pty = terminal }

pub main-enumeration :
    (program : List ℕ) (n fd : ℕ) (terminal : Socket) (waits : ℕ → ℕ) (more : List ℕ)
    → n ≤ 126
    → (bus : Bus) × (main (some (fd, terminal)) true (program ∷ replicate n generic_name)
        ≡ ok (fd, bus))
      × (bus.clients ≡ replicate n (new_client generic))
      × (assign_rounds n 2 waits more (start_round more bus) ≡ record bus {
        clients = row n 2;
        gw_has_token = true;
        gw_keep_token = false;
        pty = acks n 2 (emit_ack 1 1 terminal);
      })
unfolding main
main-enumeration program n fd terminal waits more fits =
    let bus = begun n terminal in
    let size : length bus.clients ≡ n = length-replicate n (new_client generic) in
    (
      bus,
      rw (read_arguments-replicate n initial_bus) refl,
      refl,
      enumerated n waits more bus size fits,
    )
