-- ===== src/Examples/Simulation.antt =====
-- The theorems on the daemon and the simulated bus at concrete inputs.
use sricd.Base.{
  ◌≡◌, refl, true, false, [], ◌∷◌, some, arith, replicate, ◌++◌, ◌==◌, if◌then◌else◌, none, List, ℕ,
}
use sricd.World.{
  World, Enumeration, enumerating, setting_gw_addr, ok, ◌>>=◌, TxFrame, frame_sric, null,
}
use sricd.Ostric.{Bus}
use sricd.Ostric.Addressing.{fresh, row}
use sricd.Simulation.{exchange, exchanges}
use sricd.Simulation.Answering.{pty_with, quiet}
use sricd.Simulation.Exchange.{
  Ready, in_state, assign, have_token_command, gen_token_command, req_token_command,
}
use sricd.Simulation.Devices.{ring}
use sricd.Simulation.Unanswered.{Unanswered, retries}
use sricd.Simulation.Enumeration.{resting, enumeration_stalls}
use sricd.SricIf.Transmit.Short.{write_all, SentAll, write_all_lem}
use sricd.Base.Int.{pos}
use sricd.Device.{device_exists}
use sricd.Client.Waiting.{WaitsOnEmpty}
use sricd.Ipc.{ipc_client_incoming}
use sricd.Libsric.Core.{Context, SricFrame, error_none}
use sricd.Libsric.Transfer.{sric_tx, tx_command, sric_poll_rx, poll_command}
use sricd.Protocol.Stream.{request, sent_to, connected}
use sricd.Protocol.Polling.{frame_got}
use sricd.Simulation.Serving.{Serving, frame_heard}
use sricd.Simulation.RoundTrip.{settled_bus, question, sric_tx-sric_poll_rx}
use sricd.Examples.Clients.{idle_client}
use sricd.Examples.{started, started_interface, example_platform}

abbrev looking : World
looking = record started {
  tx_queue_0 = gen_token_command ∷ req_token_command ∷ have_token_command ∷ [];
  enum = in_state enumerating 2 started.enum;
}

looking-Ready :
    Ready
      (in_state enumerating 2 started.enum)
      (gen_token_command ∷ req_token_command ∷ have_token_command ∷ [])
      looking
looking-Ready = record {
  rest = record { bounds = omega arith; heard = refl; in_hand = refl; enumerating = refl };
  enum = refl;
  queue = refl;
}

abbrev some_bus : Bus
some_bus = record {
  clients = [];
  gw_token_mode = false;
  gw_has_token = false;
  gw_keep_token = false;
  pty_buf = [];
  pty = pty_with [];
}

abbrev two_reset : Bus
two_reset = resting (ring (replicate 2 (fresh false)) false true some_bus)

abbrev two_addressed : Bus
two_addressed = resting (ring (row 2 2) true true some_bus)

abbrev gateway_waits : Enumeration
gateway_waits = in_state setting_gw_addr 4 started.enum

enumeration_stalls_example :
    (v u : World) × (exchanges [] 9 (looking, two_reset) ≡ ok (v, two_addressed))
    × Ready gateway_waits (assign 4 ∷ []) v
    × ((exchange [] (v, two_addressed) >>= retries [] 3) ≡ ok (u, two_addressed))
    × Unanswered (assign 4) gateway_waits [] u
enumeration_stalls_example =
    enumeration_stalls [] 2 3 true started.enum some_bus looking (omega arith) looking-Ready

-- A frame of five bytes of which one has gone out.
abbrev in_hand : TxFrame
in_hand = record { kind = frame_sric; address = 5; tag = null; payload = [] }

abbrev sending : World
sending = record started {
  iface = record started_interface {
    tx_frame = some in_hand;
    txbuf = 1 ∷ 2 ∷ 3 ∷ 4 ∷ 5 ∷ 6 ∷ [];
    txlen = 5;
    txpos = 1;
    write_srcid = 7;
  };
}

write_all_lem_example :
    (v : World) × (write_all (1 ∷ 2 ∷ 1 ∷ []) sending ≡ ok (v, 2 ∷ 3 ∷ 4 ∷ 5 ∷ []))
    × SentAll in_hand sending v
write_all_lem_example =
    write_all_lem (1 ∷ 2 ∷ 1 ∷ []) in_hand sending refl (omega arith) (omega arith) (omega arith)
      refl

-- The daemon serves the client at 7; the device 3 is registered.
abbrev asker : World
asker = record started {
  iface = record started_interface { enumerated = true };
  clients = λ c. (if c == 7 then some idle_client else none);
  device_types = λ a. (if a == 3 then 0 else 255);
}

asker-Serving : Serving asker
asker-Serving = record { bounds = omega arith; heard = refl; in_hand = refl; enumerated = refl }

asker-WaitsOnEmpty : WaitsOnEmpty idle_client
asker-WaitsOnEmpty = record { rx = λ e. refl; note = λ e. refl }

abbrev context : Context
context = record { error = error_none; noteflags = λ _. 0; devices = none; socket = pty_with [] }

abbrev blank : SricFrame
blank = record { address = pos 0; note = pos 0; payload_length = pos 0; payload = replicate 64 0 }

abbrev two_devices : Bus
two_devices = quiet (settled_bus 2 some_bus) [] []

sric_tx-sric_poll_rx_example :
    (w1 w2 w3 : World) × (reply : List ℕ) × (ipc_client_incoming 4 7
        (request (1 ∷ 4 ∷ 1 ∷ []) (tx_command (question 3)))
        asker
      ≡ ok (w1, true))
    × (sent_to 4 w1.calls ≡ 0 ∷ [])
    × (sric_tx (some (connected (0 ∷ []) [] context)) (question 3)
        ≡ (some (connected [] (tx_command (question 3)) context), false))
    × (exchange [] (w1, two_devices) ≡ ok (w2, two_devices))
    × (w2.iface.tx_frame ≡ none)
    × (w2.tx_queue_0 ≡ [])
    × (w2.tx_queue_1 ≡ [])
    × (ipc_client_incoming 4 7 (request (1 ∷ 4 ∷ []) (poll_command (pos 100) 2)) w2 ≡ ok (w3, true))
    × (sent_to 4 w3.calls ≡ sent_to 4 w2.calls ++ reply)
    × (sric_poll_rx (some (connected (reply ++ []) [] context)) blank (pos 100)
        ≡ ok (
          some (connected [] (poll_command (pos 100) 2) context),
          frame_got (frame_heard 3 (0 ∷ [])) blank,
          false,
        ))
unfolding device_exists
sric_tx-sric_poll_rx_example =
    sric_tx-sric_poll_rx [] 4 7 2 3 idle_client some_bus asker context blank (pos 100) [] []
      asker-Serving refl refl refl refl refl refl asker-WaitsOnEmpty (omega arith) (omega arith)
      (omega arith)
