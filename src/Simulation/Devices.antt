-- ===== src/Simulation/Devices.antt =====
-- ostric: what a round of the bus answers to the frames of the enumeration.
use sricd.Base.{
  ℕ, suc, ◌+◌, ◌<◌, ◌≡◌, ◌∙◌, ap, refl, Bool, true, false, List, [], ◌∷◌, length, drop, replicate,
}
use sricd.Base.Int.{pos, negsuc}
use sricd.World.Socket.{Socket}
use sricd.SricIf.Transmit.{build_frame}
use sricd.Ostric.{BusClient, Bus, reply_bytes, send_msg, emit_ack, emit_data_ack}
use sricd.Ostric.Commands
use sricd.Ostric.Token.{juggle_token, juggle_loop, advance_token}
use sricd.Ostric.Rotation.{juggle_loop-nobody}
use sricd.Ostric.Addressing.{settled, fresh, holding, row, despatch_loop-row, assign-settled}
use sricd.Ostric.Enumerated.{
  line, holders-fresh, line_waits, line_ends, line_moves, assign_frame, assign_frame-Says,
}
use sricd.Ostric.Enumeration.{told_assign, told_advance}
use sricd.Simulation.Answering.{pty_with, quiet, Answers}
use sricd.Simulation.Exchange.{
  assign, advance, have_token_command, gen_token_command, req_token_command,
}

-- The clients, who has the token, and whether the gateway keeps it.
abbrev pub ring : List BusClient → Bool → Bool → Bus → Bus
ring cs has keep bus = record bus { clients = cs; gw_has_token = has; gw_keep_token = keep }

-- A turn of the token that does not start at the gateway.
turn_away :
    (cs cs' : List BusClient) (has' keep : Bool) (buf bytes : List ℕ) (bus : Bus)
    → juggle_loop cs false ≡ (cs', has')
    → advance_token (quiet (ring cs false keep bus) buf bytes)
      ≡ quiet (ring cs' has' keep bus) buf bytes
unfolding advance_token
turn_away cs cs' has' true buf bytes bus e =
    ap (λ (r : List BusClient × Bool). quiet (ring r.0 r.1 true bus) buf bytes) e
turn_away cs cs' has' false buf bytes bus e =
    ap (λ (r : List BusClient × Bool). quiet (ring r.0 r.1 false bus) buf bytes) e

emit_ack_lem : (a : ℕ) → emit_ack a 1 (pty_with []) ≡ pty_with (reply_bytes a 0x81 [])
unfolding emit_ack send_msg
emit_ack_lem a = refl

module _ (stale : List ℕ) (keep : Bool) (bus : Bus) where
  -- HAVE_TOKEN while a client keeps the token.
  pub have_token_command-away :
      (n m : ℕ)
      → let b = ring (line n (fresh true) m) false keep bus in
        Answers stale have_token_command b b (reply_bytes 1 0x81 (0 ∷ []))
  unfolding Commands.gateway_command Commands.have_token emit_data_ack send_msg build_frame
  have_token_command-away n m =
      turn_away (line n (fresh true) m) (line n (fresh true) m) false keep []
        (reply_bytes 1 0x81 (0 ∷ [])) bus (line_waits n m (negsuc 0))

  -- ADDR_ASSIGN, to the client that has the token.
  pub assign-taken :
      (n m a : ℕ)
      → a < 128
      → Answers stale
          (assign a)
          (ring (line n (fresh true) m) false keep bus)
          (ring (line n (holding (pos a)) m) false keep bus)
          (reply_bytes a 0x81 [])
  unfolding Commands.bus_command
  assign-taken n m a low =
      let more = drop (length (build_frame (assign a))) stale in
      ap
        (λ (r : List BusClient × Socket).
          advance_token (record (ring r.0 false keep bus) { pty_buf = []; pty = r.1 }))
        (told_assign n m a more (pty_with []) low)
      ∙ ap
          (λ p.
            advance_token
              (record (ring (line n (holding (pos a)) m) false keep bus) { pty_buf = []; pty = p }))
          (emit_ack_lem a)
      ∙ turn_away (line n (holding (pos a)) m) (line n (holding (pos a)) m) false keep []
          (reply_bytes a 0x81 []) bus (line_waits n m (pos a))

  -- TOK_ADVANCE: the token goes to the next client, or back to the gateway.
  advance-told :
      (n m a : ℕ) (cs' : List BusClient) (has' : Bool)
      → a ≡ 2 + n
      → a < 128
      → juggle_loop (line n (settled a true) m) false ≡ (cs', has')
      → Answers stale
          (advance a)
          (ring (line n (holding (pos a)) m) false keep bus)
          (ring cs' has' keep bus)
          (reply_bytes a 0x81 [])
  unfolding Commands.bus_command
  advance-told n m a cs' has' e low moved =
      let more = drop (length (build_frame (advance a))) stale in
      ap
        (λ (r : List BusClient × Socket).
          advance_token (record (ring r.0 false keep bus) { pty_buf = []; pty = r.1 }))
        (told_advance n m a more (pty_with []) e low)
      ∙ ap
          (λ p.
            advance_token
              (record (ring (line n (settled a true) m) false keep bus) { pty_buf = []; pty = p }))
          (emit_ack_lem a)
      ∙ turn_away (line n (settled a true) m) cs' has' keep [] (reply_bytes a 0x81 []) bus moved

  pub advance-moves :
      (n m a : ℕ)
      → a ≡ 2 + n
      → a < 128
      → Answers stale
          (advance a)
          (ring (line n (holding (pos a)) (suc m)) false keep bus)
          (ring (line (suc n) (fresh true) m) false keep bus)
          (reply_bytes a 0x81 [])
  advance-moves n m a e low =
      advance-told n (suc m) a (line (suc n) (fresh true) m) false e low (line_moves n a m e)

  pub advance-ends :
      (n a : ℕ)
      → a ≡ 2 + n
      → a < 128
      → Answers stale
          (advance a)
          (ring (line n (holding (pos a)) 0) false keep bus)
          (ring (row (suc n) 2) true keep bus)
          (reply_bytes a 0x81 [])
  advance-ends n a e low = advance-told n 0 a (row (suc n) 2) true e low (line_ends n a e)

  -- REQ_TOKEN while a client keeps the token.
  pub req_token_command-away :
      (n m : ℕ)
      → Answers stale req_token_command
          (ring (line n (fresh true) m) false keep bus)
          (ring (line n (fresh true) m) false true bus)
          (reply_bytes 1 0x81 [])
  unfolding Commands.gateway_command build_frame emit_ack send_msg
  req_token_command-away n m =
      turn_away (line n (fresh true) m) (line n (fresh true) m) false true []
        (reply_bytes 1 0x81 []) bus (line_waits n m (negsuc 0))

  -- GEN_TOKEN, on a bus whose clients were reset: the first of them takes the token.
  pub gen_token_command-taken :
      (m : ℕ)
      → Answers stale gen_token_command
          (ring (replicate (suc m) (fresh false)) false keep bus)
          (ring (line 0 (fresh true) m) false false bus)
          (reply_bytes 1 0x81 [])
  unfolding Commands.gateway_command build_frame emit_ack send_msg advance_token juggle_loop
      juggle_token
  gen_token_command-taken m =
      ap
        (λ (r : List BusClient × Bool).
          quiet (ring (fresh true ∷ r.0) r.1 false bus) [] (reply_bytes 1 0x81 []))
        (juggle_loop-nobody (replicate m (fresh false)) (holders-fresh m))

-- HAVE_TOKEN once the gateway has it and keeps it.
pub have_token_command-back :
    (stale : List ℕ) (cs : List BusClient) (bus : Bus)
    → Answers stale have_token_command
        (ring cs true true bus)
        (ring cs true true bus)
        (reply_bytes 1 0x81 (1 ∷ []))
unfolding Commands.gateway_command Commands.have_token emit_data_ack send_msg build_frame
    advance_token
have_token_command-back stale cs bus = refl

-- Without clients the token stays at the gateway.
pub gen_token_command-alone :
    (stale : List ℕ) (keep : Bool) (bus : Bus)
    → Answers stale gen_token_command
        (ring [] false keep bus)
        (ring [] true false bus)
        (reply_bytes 1 0x81 [])
unfolding Commands.gateway_command build_frame emit_ack send_msg advance_token juggle_loop
gen_token_command-alone stale keep bus = refl

pub req_token_command-back :
    (stale : List ℕ) (cs : List BusClient) (keep : Bool) (bus : Bus)
    → Answers stale req_token_command
        (ring cs true keep bus)
        (ring cs true true bus)
        (reply_bytes 1 0x81 [])
unfolding Commands.gateway_command build_frame emit_ack send_msg advance_token
req_token_command-back stale cs keep bus = refl

-- ADDR_ASSIGN once every client has its address: nobody answers.
pub assign-silent :
    (stale : List ℕ) (n a : ℕ) (bus : Bus)
    → Answers stale (assign a) (ring (row n 2) true true bus) (ring (row n 2) true true bus) []
unfolding Commands.bus_command advance_token
assign-silent stale n a bus =
    let more = drop (length (build_frame (assign a))) stale in
    ap
      (λ (r : List BusClient × Socket).
        advance_token (record (ring r.0 true true bus) { pty_buf = []; pty = r.1 }))
      (despatch_loop-row n 2 (assign_frame more a) (pty_with [])
        (λ j _ p. assign-settled a j (assign_frame more a) p (assign_frame-Says more a)))
