-- ===== src/Examples/Ostric.antt =====
-- The theorems on the simulated bus at concrete inputs: a bus of three clients.
use sricd.Base.{
  ◌≤◌, some, ℕ, ◌+◌, ◌≡◌, refl, inl, true, false, List, [], ◌∷◌, ◌++◌, arith, length, take,
  replicate, overwrite,
}
use sricd.Base.Int.{pos}
use sricd.World.{Interface, ok}
use sricd.SricIf.Receive.{advance_rx, frame_complete, read_bytes, read_incoming}
use sricd.SricIf.Transmit.{build_frame}
use sricd.SricIf.Transmit.Wire.{wire_bytes}
use sricd.Ostric.{BusClient, Bus, generic, send_msg, reply_frame, emit_ack}
use sricd.Ostric.Commands.{gateway_command}
use sricd.Ostric.Token.{advance_token}
use sricd.Ostric.Parsing.{main_round, try_parsing_stuff, generic_name, new_client}
use sricd.Ostric.Rotation.{Moves, advance_token_lem}
use sricd.Ostric.Request.{turns, gateway_command-turns}
use sricd.Ostric.Addressing.{row}
use sricd.Ostric.Enumeration.{assign_rounds, start_round, acks}
use sricd.Ostric.StartUp.{main, main-enumeration}
use sricd.Ostric.Wire.{receive-send_msg}
use sricd.Ostric.Intake.{handled, try_parsing_stuff-wire_bytes}
use sricd.Ostric.Blocked.{CutShort, SameFrame, main_round-CutShort}
use sricd.Examples.{started_interface, started_bounds, awkward_frame}

abbrev at_rest : ℕ → BusClient
at_rest a = record { client_type = generic; address = pos a; has_token = false; keep_token = false }

-- The client in the middle has the token.
abbrev three_clients : Bus
three_clients = record {
  clients = at_rest 2 ∷ record (at_rest 3) { has_token = true } ∷ at_rest 4 ∷ [];
  gw_token_mode = true;
  gw_has_token = false;
  gw_keep_token = false;
  pty_buf = [];
  pty = record { incoming = 7 ∷ []; written = []; read_limits = []; write_limits = [] };
}

abbrev request_frame : List ℕ
request_frame = 0x8E ∷ 1 ∷ 1 ∷ 1 ∷ 1 ∷ 0 ∷ 0 ∷ []

-- The frame that stands in front has a length of 2 and no payload.
abbrev blocked_bus : Bus
blocked_bus = record three_clients { pty_buf = 0x7E ∷ 3 ∷ 1 ∷ 2 ∷ 0x7E ∷ 3 ∷ [] }

blocked_is_cut : CutShort blocked_bus
unfolding sricd.Escape.escape_byte
blocked_is_cut = record {
  start = 0x7E;
  next = 0x7E;
  body = 3 ∷ 1 ∷ 2 ∷ [];
  rest = 3 ∷ [];
  starts = refl;
  cut = inl refl;
  held = refl;
  has_length = omega arith;
  short = omega arith;
  fits = omega arith;
  room = omega arith;
}

advance_token_lem_example : Moves three_clients (advance_token three_clients)
advance_token_lem_example = advance_token_lem three_clients (omega arith)

gateway_command-turns_example :
    let bus' = turns 3 (gateway_command request_frame 7 three_clients) in
    (bus'.gw_has_token ≡ true) × (advance_token bus' ≡ bus')
gateway_command-turns_example =
    gateway_command-turns request_frame 7 three_clients (omega arith) refl refl refl

main-enumeration_example :
    (bus : Bus) × (main (some (3, three_clients.pty)) true ([] ∷ replicate 3 generic_name)
      ≡ ok (3, bus))
    × (bus.clients ≡ replicate 3 (new_client generic))
    × (assign_rounds 3 2 (λ a. a) [] (start_round [] bus) ≡ record bus {
      clients = row 3 2;
      gw_has_token = true;
      gw_keep_token = false;
      pty = acks 3 2 (emit_ack 1 1 three_clients.pty);
    })
main-enumeration_example = main-enumeration [] 3 3 three_clients.pty (λ a. a) [] (omega arith)

receive-send_msg_example :
    (bytes : List ℕ) × (read got : Interface) × (send_msg 3 0x81 (0x7E ∷ []) three_clients.pty
      ≡ (record (three_clients.pty) { written = [] ++ bytes }, false))
    × (read_incoming (read_bytes bytes) started_interface ≡ ok read)
    × (advance_rx read ≡ ok (got, true))
    × (frame_complete got ≡ true)
    × (take got.unesc_pos got.unesc_rx ≡ reply_frame 3 0x81 (0x7E ∷ []))
    × (got.rxpos ≡ 0)
receive-send_msg_example =
    receive-send_msg 3 0x81 (0x7E ∷ []) three_clients.pty started_interface (omega arith) refl
      started_bounds refl

awkward_room : length (wire_bytes awkward_frame ++ 0x7E ∷ []) ≤ 128
unfolding sricd.Escape.escape_byte build_frame sricd.Crc16.crc16
awkward_room = omega arith

try_parsing_stuff-wire_bytes_example :
    let bus = record three_clients { pty_buf = wire_bytes awkward_frame ++ 0x7E ∷ [] } in
    let buffer = overwrite (build_frame awkward_frame) (replicate 128 0) in
    try_parsing_stuff (replicate 128 0) bus
    ≡ record (handled awkward_frame.kind buffer (length awkward_frame.payload + 6) bus) {
      pty_buf = 0x7E ∷ [];
    }
try_parsing_stuff-wire_bytes_example =
    try_parsing_stuff-wire_bytes (replicate 128 0) (0x7E ∷ []) awkward_frame
      (record three_clients { pty_buf = wire_bytes awkward_frame ++ 0x7E ∷ [] }) (omega arith)
      awkward_room (inl refl) refl

main_round-CutShort_example :
    (bus' : Bus) × (main_round (replicate 128 0) true blocked_bus ≡ ok bus')
    × (bus'.pty_buf ≡ blocked_bus.pty_buf ++ 7 ∷ [])
    × SameFrame blocked_is_cut bus'
    × (bus'.pty.written ≡ [])
main_round-CutShort_example =
    main_round-CutShort (replicate 128 0) (7 ∷ []) true blocked_bus blocked_is_cut refl
