-- ===== src/Simulation.antt =====
-- The daemon on the simulated bus: sricd/sric-if.c and ostric/ostric.c joined by a terminal.
pub mod Hearing
pub mod Speaking
pub mod Answering
pub mod Exchange
pub mod Devices
pub mod Unanswered
pub mod Serving
pub mod Query
pub mod RoundTrip
pub mod Enumeration
use sricd.Base.{
  ℕ, zero, suc, ◌-◌, Bool, true, List, [], ◌∷◌, ◌++◌, Option, none, some, ◌==◌, if◌then◌else◌,
  length,
}
use sricd.World.{World, Platform, TxFrame, Outcome, ok, ◌>>=◌}
use sricd.SricIf.Receive.{read_bytes, rx}
use sricd.SricIf.Transmit.{next_tx, if_tx}
use sricd.SricIf.Transmit.Retry.{newly_written}
use sricd.Ostric.{Bus}
use sricd.Ostric.Parsing.{main_round}

abbrev pub loaded_length : Outcome (World × Bool) → ℕ
loaded_length (ok (w, b)) = w.iface.txlen
loaded_length _ = 0

-- How many bytes the next `write` is given: all of the next frame, or what is left of the one in
-- hand.
abbrev pub offered_for : Option TxFrame → World → ℕ
offered_for none w = loaded_length (next_tx w)
offered_for (some f) w = w.iface.txlen - w.iface.txpos

-- The port is ready, and takes all the bytes that it is given.
module _ ⦃env : Platform⦄ where
  unfoldable pub speak : World → Outcome (World × List ℕ)
  unfolding if_tx
  speak w = do
    sent ← if_tx (some (offered_for w.iface.tx_frame w)) w
    ok (sent.0, newly_written w sent.0)

  -- What the bus answers arrives in one piece, if there is anything.
  unfoldable pub hear : List ℕ → World → Outcome World
  unfolding rx
  hear [] w = ok w
  hear (b ∷ bytes) w = rx (read_bytes (b ∷ bytes)) w

-- A round of the bus in which it finds the bytes on its terminal; and what it answers. `stale` is
-- what its buffer holds.
unfoldable pub bus_round : List ℕ → List ℕ → Bus → Outcome (Bus × List ℕ)
unfolding main_round
bus_round stale bytes bus = do
  bus' ←
      main_round stale true
        (record bus { pty = record (bus.pty) { incoming = bus.pty.incoming ++ bytes } })
  ok (record bus' { pty = record (bus'.pty) { written = [] } }, bus'.pty.written)

-- The daemon sends what it has to send, the bus takes a round, and the daemon gets the answer.
module _ (stale : List ℕ) ⦃env : Platform⦄ where
  unfoldable pub exchange : World × Bus → Outcome (World × Bus)
  unfolding speak hear bus_round
  exchange (w, bus) = do
    said ← speak w
    told ← bus_round stale said.1 bus
    w' ← hear told.1 said.0
    ok (w', told.0)

  unfoldable pub exchanges : ℕ → World × Bus → Outcome (World × Bus)
  unfolding exchange
  exchanges zero s = ok s
  exchanges (suc n) s = exchange s >>= exchanges n
