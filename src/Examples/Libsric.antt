-- ===== src/Examples/Libsric.antt =====
-- The theorems on libsric and its connection at concrete inputs.
use sricd.Base.{
  ℕ, ◌<◌, ◌≡◌, refl, true, false, not, List, [], ◌∷◌, ◌++◌, none, some, arith, ◌==◌, if◌then◌else◌,
  replicate,
}
use sricd.Base.Int.{pos, negsuc}
use sricd.World.{World, ok}
use sricd.Ipc.{ipc_client_incoming}
use sricd.Device.{device_exists, device_high_address}
use sricd.Device.Registration.{Registers}
use sricd.Libsric.Core.{Context, SricFrame, error_none, error_badpayload, failed_with}
use sricd.Libsric.Transfer.{tx_command, poll_command, sric_tx, sric_poll_rx, sric_poll_note}
use sricd.Libsric.Notes.{flags_command, sric_note_set_flags}
use sricd.Libsric.Devices.{sric_refresh_devices}
use sricd.Libsric.Retry.{sric_note_set_flags-retry}
use sricd.Protocol.Stream.{request, sent_to, connected}
use sricd.Protocol.Sending.{to_send, frame_sent, sric_tx-ipc_client_incoming}
use sricd.Protocol.Polling.{
  frame_got, sric_poll_rx-ipc_client_incoming, sric_poll_note-ipc_client_incoming,
}
use sricd.Protocol.Flags.{remembered, sric_note_set_flags-ipc_client_incoming}
use sricd.Protocol.Listing.{present, devices_of}
use sricd.Protocol.Devices.{sric_refresh_devices-ipc_client_incoming}
use sricd.Examples.{example_platform}
use sricd.Examples.Clients.{idle_client, with_client, answer, once_each}

-- A program whose connection breaks at the first write.
abbrev broken : Context
broken = record {
  error = error_none;
  noteflags = λ _. 0;
  devices = none;
  socket = record { incoming = []; written = []; read_limits = []; write_limits = none ∷ [] };
}

-- The devices 0, 1 and 3 exist; the class of 3 is 200, which is negative as a `char`.
abbrev three_devices : World
three_devices = record (with_client idle_client) {
  device_types = λ a. (if a == 0 then 254 else if a == 1 then 0 else if a == 3 then 200 else 255);
}

abbrev blank_frame : SricFrame
blank_frame = record {
  address = pos 0;
  note = pos 0;
  payload_length = pos 0;
  payload = replicate 64 0;
}

bytes_each : (j : ℕ) → three_devices.device_types j < 256
bytes_each j = ground arith

sric_note_set_flags-retry_example :
    (ctx' : Context) × ((sric_note_set_flags (some broken) (pos 3) 5).0 ≡ some ctx')
    × (sric_note_set_flags (some ctx') (pos 3) 5 ≡ (some (failed_with error_none ctx'), false))
    × (ctx'.noteflags 3 ≡ 5)
sric_note_set_flags-retry_example = sric_note_set_flags-retry 3 5 broken (omega arith) (omega arith)

sric_tx-ipc_client_incoming_example :
    let f = to_send 3 2 (9 ∷ 8 ∷ 7 ∷ []) in
    let exists = device_exists 3 three_devices in
    (w' : World) × (answer : ℕ) × (ipc_client_incoming 4 7
        (request (1 ∷ 4 ∷ 2 ∷ []) (tx_command f))
        three_devices
      ≡ ok (w', true))
    × (sent_to 4 w'.calls ≡ sent_to 4 three_devices.calls ++ answer ∷ [])
    × (w'.tx_queue_1 ≡ (
        if exists
        then three_devices.tx_queue_1 ++ frame_sent 7 3 2 (9 ∷ 8 ∷ 7 ∷ []) ∷ []
        else three_devices.tx_queue_1))
    × (sric_tx (some (connected (answer ∷ []) [] broken)) f ≡ (
      some (
          connected []
            ([] ++ tx_command f)
            (record broken { error = if exists then error_none else error_badpayload })),
      not exists,
    ))
sric_tx-ipc_client_incoming_example =
    sric_tx-ipc_client_incoming 4 7 3 2 (9 ∷ 8 ∷ 7 ∷ []) [] [] broken three_devices (omega arith)
      (omega arith) (omega arith) (omega arith)

sric_poll_rx-ipc_client_incoming_example :
    let w = with_client (record idle_client { rx_q = answer ∷ [] }) in
    (w' : World) × (sent : List ℕ) × (ipc_client_incoming 4 7
        (request (1 ∷ 4 ∷ []) (poll_command (negsuc 0) 2))
        w
      ≡ ok (w', true))
    × (w'.clients 7 ≡ some (record idle_client { rx_q = [] }))
    × (sent_to 4 w'.calls ≡ sent_to 4 w.calls ++ sent)
    × (sric_poll_rx (some (connected (sent ++ []) [] broken)) blank_frame (negsuc 0)
        ≡ ok (
          some (
              connected []
                ([] ++ poll_command (negsuc 0) 2)
                (record broken { error = error_none })),
          frame_got answer blank_frame,
          false,
        ))
sric_poll_rx-ipc_client_incoming_example =
    sric_poll_rx-ipc_client_incoming 4 7 (record idle_client { rx_q = answer ∷ [] }) answer []
      blank_frame (negsuc 0) [] [] broken (with_client (record idle_client { rx_q = answer ∷ [] }))
      refl refl (omega arith)

sric_poll_note-ipc_client_incoming_example :
    let w = with_client (record idle_client { note_q = answer ∷ [] }) in
    (w' : World) × (sent : List ℕ) × (ipc_client_incoming 4 7
        (request (1 ∷ 4 ∷ []) (poll_command (pos 9) 3))
        w
      ≡ ok (w', true))
    × (w'.clients 7 ≡ some (record idle_client { note_q = [] }))
    × (sent_to 4 w'.calls ≡ sent_to 4 w.calls ++ sent)
    × (sric_poll_note (some (connected (sent ++ []) [] broken)) blank_frame (pos 9)
        ≡ ok (
          some (connected [] ([] ++ poll_command (pos 9) 3) (record broken { error = error_none })),
          frame_got answer blank_frame,
          false,
        ))
sric_poll_note-ipc_client_incoming_example =
    sric_poll_note-ipc_client_incoming 4 7 (record idle_client { note_q = answer ∷ [] }) answer []
      blank_frame (pos 9) [] [] broken (with_client (record idle_client { note_q = answer ∷ [] }))
      refl refl (omega arith)

sric_note_set_flags-ipc_client_incoming_example :
    (w' : World) × (ipc_client_incoming 4 7
        (request (1 ∷ 2 ∷ 8 ∷ []) (flags_command (pos 3) 6))
        three_devices
      ≡ ok (w', true))
    × Registers 7 6 (three_devices.targets 3) (w'.targets 3)
    × (sent_to 4 w'.calls ≡ sent_to 4 three_devices.calls ++ 0 ∷ [])
    × (sric_note_set_flags (some (connected (0 ∷ []) [] broken)) (pos 3) 6
        ≡ (some (connected [] ([] ++ flags_command (pos 3) 6) (remembered 3 6 broken)), false))
unfolding device_exists
sric_note_set_flags-ipc_client_incoming_example =
    sric_note_set_flags-ipc_client_incoming 4 7 3 6 idle_client [] [] broken three_devices
      (omega arith) (omega arith) (omega arith) (omega arith) refl refl (once_each 3)

sric_refresh_devices-ipc_client_incoming_example :
    (w' : World) × (ipc_client_incoming 4 7 (request (1 ∷ []) (5 ∷ [])) three_devices
      ≡ ok (w', true))
    × (sric_refresh_devices (connected (sent_to 4 w'.calls) [] broken)
        ≡ record (connected [] ([] ++ (5 ∷ [])) broken) {
          devices = some (
              devices_of three_devices.device_types
                (present device_high_address 0 three_devices.device_types));
        })
sric_refresh_devices-ipc_client_incoming_example =
    sric_refresh_devices-ipc_client_incoming 4 7 [] broken three_devices bytes_each refl
