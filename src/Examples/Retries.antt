-- ===== src/Examples/Retries.antt =====
-- The theorems on retransmission and on the start-up at concrete inputs.
use sricd.Base.{false, true, length, Bool, ◌≤◌, ◌≡◌, refl, List, [], ◌∷◌, some, none, arith}
use sricd.World.{
  owner, no_fuel, kill_token_timeout, send_reset_timeout, World, TxFrame, enumerating, ok,
}
use sricd.OutputQueue.{pri_0}
use sricd.SricIf.Transmit.Retry.{
  WaitEvent, Resends, frames_cancelled, frame_queued, port_ready, wait_all, serial_writes,
  if_tx-retransmits,
}
use sricd.SricIf.Transmit.{if_tx, tx_timeout_fired}
use sricd.SricIf.Transmit.Watch.{Attends, if_tx-Attends}
use sricd.SricEnum.{sric_enum_start, kill_token_timeout_fired}
use sricd.SricEnum.StartUp.{timers, reset_timer, at_start, start_up_commands, start_up_lem}
use sricd.Examples.{example_platform, started, started_interface, awkward_frame}

-- Nine bytes were sent.
abbrev sent : World
sent = record started {
  iface = record started_interface { tx_frame = some awkward_frame; txlen = 9; txpos = 9 };
}

abbrev meanwhile : List WaitEvent
meanwhile =
    frame_queued awkward_frame pri_0
    ∷ port_ready none
    ∷ frames_cancelled (owner 5)
    ∷ port_ready (some 3)
    ∷ []

if_tx-retransmits_example :
    (v : World) × (wait_all meanwhile sent ≡ ok v)
    × (v.iface.tx_frame ≡ some awkward_frame)
    × (serial_writes v.calls ≡ [])
    × ((tx_timeout_fired v).iface.tx_frame ≡ some awkward_frame)
    × (serial_writes (tx_timeout_fired v).calls ≡ [])
    × Resends false 9 sent v
if_tx-retransmits_example = if_tx-retransmits meanwhile 9 awkward_frame sent refl refl (omega arith)

-- A client's frame is queued, and the watch is set.
abbrev ready : World
ready = record started {
  tx_queue_1 = awkward_frame ∷ [];
  iface = record started_interface { enumerated = true; write_srcid = 3 };
}

awkward_fits : (f : TxFrame) → some awkward_frame ≡ some f → length f.payload ≤ 64
awkward_fits f e = let same : awkward_frame ≡ f = cc in rw (← same) (omega arith)

if_tx-Attends_example :
    (w' : World) × (stays : Bool) × (if_tx (some 5) ready ≡ ok (w', stays)) × Attends ready w' stays
if_tx-Attends_example = if_tx-Attends 5 ready (λ f held sent. cc) awkward_fits

start_up_lem_example :
    (w1 w2 w' : World) × (sric_enum_start (at_start ready) ≡ ok w1)
    × (timers w1.calls ≡ (100, kill_token_timeout) ∷ timers ready.calls)
    × (kill_token_timeout_fired w1 ≡ ok w2)
    × (timers w2.calls ≡ (50, send_reset_timeout) ∷ timers w1.calls)
    × (reset_timer 5 w2 ≡ no_fuel)
    × (reset_timer 6 w2 ≡ ok w')
    × (timers w'.calls ≡ timers w2.calls)
    × (w'.enum.state ≡ enumerating)
    × (w'.tx_queue_0 ≡ start_up_commands)
    × (w'.tx_queue_1 ≡ awkward_frame ∷ [])
    × (w'.enum.current_next_address ≡ started.enum.current_next_address)
    × (w'.device_types ≡ started.device_types)
start_up_lem_example = start_up_lem ready
