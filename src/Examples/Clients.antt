-- ===== src/Examples/Clients.antt =====
-- The theorems on clients and registrations at concrete inputs: a client that stands at address 3.
use sricd.Base.{
  ℕ, ◌≤◌, ◌<◌, ◌≡◌, ◌≢◌, refl, true, false, [], ◌∷◌, none, some, arith, ◌==◌, if◌then◌else◌,
  same_or_not, inl, inr,
}
use sricd.World.{World, Client, Frame, owner, ok, ◌>>=◌, shifted_one}
use sricd.SricIf.Ready.{tx_frame_has_tag}
use sricd.OutputQueue.Laws.{tagged}
use sricd.Client.{client_push_rx, response_header}
use sricd.Client.Destroy.{client_destroy}
use sricd.Client.Waiting.{WaitsOnEmpty, client_push_rx_lem, after_push_rx, calls_of_push_rx}
use sricd.Client.Release.{client_destroy_lem}
use sricd.Device.{device_set_client_notes, mark_client, device_dispatch_note}
use sricd.Device.Notes.{OnceEach}
use sricd.Device.Registration.{Registers, OnlyNotes, device_set_client_notes_lem}
use sricd.Device.Dispatch.{sent_notes, CanPush, registered, notified, device_dispatch_note_lem}
use sricd.Ipc.{Input, handle_poll_rx, timeout_callback_fired}
use sricd.Ipc.Polling.{AtRest, client_writes, handle_poll_rx-client_push_rx}
use sricd.Ipc.Timeouts.{timeout_callback-client_push_rx}
use sricd.Examples.{example_platform, started, awkward_frame}

abbrev pub idle_client : Client
idle_client = record {
  note_q = [];
  rx_q = [];
  fd = 4;
  rx_timer = 0;
  note_timer = 0;
  rx_ping_set = false;
  note_ping_set = false;
  device_note_data_0 = 0;
  device_note_data_1 = 0;
}

abbrev waiting_client : Client
waiting_client = record idle_client { rx_timer = 6; rx_ping_set = true }

-- The client at the address 7 of the heap stands in the lists of the devices 0 and 3.
abbrev pub with_client : Client → World
with_client x = record started {
  clients = λ c. (if c == 7 then some x else none);
  targets = λ a.
      (if (a == 3)
        then record { c = 7; flags = 5 } ∷ record { c = 9; flags = 2 } ∷ []
        else if a == 0
        then record { c = 7; flags = 1 } ∷ []
        else []);
  tx_queue_1 = awkward_frame ∷ [];
}

pub once_each : (a : ℕ) → OnceEach ((with_client idle_client).targets a)
once_each a = ground arith

abbrev pub answer : Frame
answer = record { source_address = 3; dest_address = 1; note = 0; payload = 1 ∷ 2 ∷ [] }

-- A poll with a timeout of 100 ms.
abbrev poll_input : Input
poll_input = record { reads = λ _. some (0 ∷ 0 ∷ 0 ∷ 100 ∷ []); memory = λ _. 0 }

idle_rests : AtRest idle_client
idle_rests = record { rx_q = refl; rx_ping_set = refl; rx_timer = refl; notes = λ e. refl }

waiting_waits : WaitsOnEmpty waiting_client
waiting_waits = record { rx = λ e. refl; note = λ e. refl }

client_push_rx_lem_example :
    (w' : World) × (client_push_rx (owner 7) answer (with_client waiting_client) ≡ ok w')
    × (w'.clients 7 ≡ some (after_push_rx waiting_client answer))
    × (w'.calls ≡ calls_of_push_rx waiting_client answer [])
    × WaitsOnEmpty (after_push_rx waiting_client answer)
    × ((d : ℕ) → d ≢ 7 → w'.clients d ≡ (with_client waiting_client).clients d)
client_push_rx_lem_example =
    client_push_rx_lem 7 waiting_client answer (with_client waiting_client) refl waiting_waits

handle_poll_rx-client_push_rx_example :
    (u v : World) × ((handle_poll_rx 4 7 poll_input (with_client idle_client)
        >>= client_push_rx (owner 7) answer)
      ≡ ok u)
    × ((client_push_rx (owner 7) answer (with_client idle_client) >>= handle_poll_rx 4 7 poll_input)
        ≡ ok v)
    × (u.clients 7 ≡ some idle_client)
    × (v.clients 7 ≡ some idle_client)
    × (client_writes u.calls ≡ (4, 1 ∷ 2 ∷ []) ∷ (4, response_header answer) ∷ [])
    × (client_writes v.calls ≡ client_writes u.calls)
unfolding sricd.Ipc.network_order
handle_poll_rx-client_push_rx_example =
    handle_poll_rx-client_push_rx 7 idle_client answer poll_input (0 ∷ 0 ∷ 0 ∷ 100 ∷ [])
      (with_client idle_client) refl idle_rests refl refl (omega arith)

timeout_callback-client_push_rx_example :
    (w' : World) × ((timeout_callback_fired 7 (with_client waiting_client)
        >>= client_push_rx (owner 7) answer)
      ≡ ok w')
    × (client_writes w'.calls ≡ (4, 1 ∷ 2 ∷ []) ∷ (4, response_header answer) ∷ (4, 2 ∷ []) ∷ [])
timeout_callback-client_push_rx_example =
    timeout_callback-client_push_rx 7 waiting_client answer (with_client waiting_client) refl
      waiting_waits refl

device_set_client_notes_lem_example :
    (w' : World) × (device_set_client_notes 3 7 0 (with_client idle_client) ≡ ok w')
    × Registers 7 0 ((with_client idle_client).targets 3) (w'.targets 3)
    × ((a : ℕ) → a ≢ 3 → w'.targets a ≡ (with_client idle_client).targets a)
    × (w'.clients 7 ≡ some (mark_client 3 0 idle_client))
    × ((d : ℕ) → d ≢ 7 → w'.clients d ≡ (with_client idle_client).clients d)
    × OnlyNotes (with_client idle_client) w'
device_set_client_notes_lem_example =
    device_set_client_notes_lem 3 7 0 idle_client (with_client idle_client) refl (once_each 3)

client_destroy_lem_example :
    (w' : World) × (client_destroy 7 (with_client idle_client) ≡ ok w')
    × (w'.clients 7 ≡ none)
    × ((d : ℕ) → d ≢ 7 → w'.clients d ≡ (with_client idle_client).clients d)
    × (tagged (owner 7) w'.tx_queue_0 ≡ [])
    × (tagged (owner 7) w'.tx_queue_1 ≡ [])
    × (tx_frame_has_tag (owner 7) none ≡ true → w'.iface.frame_cancelled ≡ true)
    × ((a : ℕ)
        → 2 ≤ a
        → a < 128
        → Registers 7 0 ((with_client idle_client).targets a) (w'.targets a))
    × ((a : ℕ) → a < 2 → w'.targets a ≡ (with_client idle_client).targets a)
client_destroy_lem_example =
    client_destroy_lem 7 idle_client (with_client idle_client) refl once_each

abbrev both_clients : World
both_clients = record (with_client idle_client) {
  clients =
      λ c. (if c == 7 then some idle_client else if c == 9 then some waiting_client else none);
}

idle_waits : WaitsOnEmpty idle_client
idle_waits = record { rx = λ e. refl; note = λ e. refl }

both_ready : CanPush (both_clients.targets 3) both_clients
both_ready = λ c there. (elim (same_or_not c 7) [
  | inl seven ↦ (idle_client, rw seven refl, idle_waits)
  | inr other ↦ (waiting_client, ground arith, waiting_waits)
])

-- The note 2 of the device 3: the client 7 is registered under the flags 5, the client 9 under 2.
abbrev a_note : Frame
a_note = record { source_address = 3; dest_address = 1; note = 2; payload = 1 ∷ [] }

device_dispatch_note_lem_example :
    let flag = shifted_one 2 in
    (w' : World) × (device_dispatch_note a_note both_clients ≡ ok w')
    × ((c : ℕ)
        → w'.clients c
          ≡ notified (registered flag c (both_clients.targets 3)) a_note (both_clients.clients c))
    × (w'.calls
        ≡ sent_notes flag a_note (both_clients.targets 3) both_clients.clients both_clients.calls)
device_dispatch_note_lem_example =
    device_dispatch_note_lem a_note both_clients (once_each 3) both_ready
