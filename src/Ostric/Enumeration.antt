-- ===== src/Ostric/Enumeration.antt =====
-- ostric and sricd/sric-enum.c: the daemon's commands give each client of the bus its address.
use sricd.Base.{
  ℕ, zero, suc, ◌+◌, ◌≤◌, ◌<◌, ◌≡◌, ◌∙◌, ap, refl, Bool, true, false, not, List, [], ◌∷◌, arith,
  length, get_or, replicate,
}
use sricd.Base.Int.{ℤ, pos, negsuc}
use sricd.World.Socket.{Socket}
use sricd.SricIf.Transmit.{build_frame}
use sricd.Ostric.{BusClient, Bus, ClientType, generic, emit_ack}
use sricd.Ostric.Generic.{generic_msg, msg_callback, reset_client, is_byte}
use sricd.Ostric.Commands.{despatch_loop, bus_command, gateway_command}
use sricd.Ostric.Token.{juggle_token, juggle_loop, advance_token}
use sricd.Ostric.Rotation.{juggle_loop-nobody, with_ring}
use sricd.Ostric.Request.{turns, and_false}
use sricd.Ostric.Addressing.{
  settled, fresh, holding, row, assign-settled, assign-fresh, assign-holder, advance-settled,
  advance-fresh, advance-seated,
}
use sricd.Ostric.Enumerated.{
  line, holders-fresh, line_told, line_waits, line_ends, line_moves, reset_frame, assign_frame,
  advance_frame, gen_token_frame, assign_frame-Says, advance_frame-Says,
}

-- A round of the enumeration: `wait` turns of the token, ADDR_ASSIGN, as many turns, TOK_ADVANCE,
-- and a turn.
unfoldable pub assign_round : ℕ → List ℕ → ℕ → Bus → Bus
unfolding bus_command turns advance_token
assign_round wait more a bus = advance_token (
    bus_command (advance_frame more a)
      (turns wait (bus_command (assign_frame more a) (turns wait bus))))

-- The rounds for the addresses from `a` on.
unfoldable pub assign_rounds : ℕ → ℕ → (ℕ → ℕ) → List ℕ → Bus → Bus
unfolding assign_round
assign_rounds zero a waits more bus = bus
assign_rounds (suc n) a waits more bus =
    assign_rounds n (a + 1) waits more (assign_round (waits a) more a bus)

-- What the clients write meanwhile: each acknowledges both of its frames to the address 1.
abbrev pub acks : ℕ → ℕ → Socket → Socket
acks zero a pty = pty
acks (suc n) a pty = acks n (a + 1) (emit_ack a 1 (emit_ack a 1 pty))

abbrev stage : List BusClient → Bool → Socket → Bus → Bus
stage cs has pty bus = record bus {
  clients = cs;
  gw_has_token = has;
  gw_keep_token = false;
  pty = pty;
}

turns-stage :
    (k n m : ℕ) (address : ℤ) (pty : Socket) (bus : Bus)
    → turns k (stage (line n (holding address) m) false pty bus)
      ≡ stage (line n (holding address) m) false pty bus
unfolding turns advance_token
turns-stage zero n m address pty bus = refl
turns-stage (suc k) n m address pty bus =
    ap (λ r. turns k (with_ring (stage (line n (holding address) m) false pty bus) r))
      (line_waits n m address)
    ∙ turns-stage k n m address pty bus

-- What the frames for the address `a` make of the line.
pub told_assign :
    (n m a : ℕ) (more : List ℕ) (pty : Socket)
    → a < 128
    → despatch_loop (line n (fresh true) m) (assign_frame more a) pty
      ≡ (line n (holding (pos a)) m, emit_ack a 1 pty)
told_assign n m a more pty low =
    let says = assign_frame-Says more a in
    line_told n m (fresh true) (holding (pos a)) (assign_frame more a) pty (emit_ack a 1 pty)
      (λ j _ q. assign-settled a j (assign_frame more a) q says)
      (λ q. assign-fresh a (assign_frame more a) q says)
      (assign-holder a (assign_frame more a) pty low says)

pub told_advance :
    (n m a : ℕ) (more : List ℕ) (pty : Socket)
    → a ≡ 2 + n
    → a < 128
    → despatch_loop (line n (holding (pos a)) m) (advance_frame more a) pty
      ≡ (line n (settled a true) m, emit_ack a 1 pty)
told_advance n m a more pty e low =
    let x = get_or (advance_frame more a) 5 0 in
    let says = advance_frame-Says more a low in
    line_told n m (holding (pos a)) (settled a true) (advance_frame more a) pty (emit_ack a 1 pty)
      (λ j less q. advance-settled a j x (advance_frame more a) q (omega arith) says)
      (λ q. advance-fresh a x (advance_frame more a) q (omega arith) says)
      (advance-seated a x (advance_frame more a) pty low says)

assigned :
    (n m a : ℕ) (more : List ℕ) (pty : Socket) (bus : Bus)
    → a < 128
    → bus_command (assign_frame more a) (stage (line n (fresh true) m) false pty bus)
      ≡ stage (line n (holding (pos a)) m) false (emit_ack a 1 pty) bus
unfolding bus_command
assigned n m a more pty bus low =
    ap (λ (r : List BusClient × Socket). stage r.0 false r.1 bus) (told_assign n m a more pty low)

advanced :
    (n m a : ℕ) (more : List ℕ) (pty : Socket) (bus : Bus)
    → a ≡ 2 + n
    → a < 128
    → bus_command (advance_frame more a) (stage (line n (holding (pos a)) m) false pty bus)
      ≡ stage (line n (settled a true) m) false (emit_ack a 1 pty) bus
unfolding bus_command
advanced n m a more pty bus e low =
    ap (λ (r : List BusClient × Socket). stage r.0 false r.1 bus)
      (told_advance n m a more pty e low)

-- The round up to its last turn.
assign_round-line :
    (wait n m a : ℕ) (more : List ℕ) (pty : Socket) (bus : Bus)
    → a ≡ 2 + n
    → a < 128
    → assign_round wait more a (stage (line n (fresh true) m) false pty bus)
      ≡ advance_token
          (stage (line n (settled a true) m) false (emit_ack a 1 (emit_ack a 1 pty)) bus)
unfolding assign_round
assign_round-line wait n m a more pty bus e low =
    ap
      (λ b.
        advance_token
          (bus_command (advance_frame more a) (turns wait (bus_command (assign_frame more a) b))))
      (turns-stage wait n m (negsuc 0) pty bus)
    ∙ ap (λ b. advance_token (bus_command (advance_frame more a) (turns wait b)))
        (assigned n m a more pty bus low)
    ∙ ap (λ b. advance_token (bus_command (advance_frame more a) b))
        (turns-stage wait n m (pos a) (emit_ack a 1 pty) bus)
    ∙ ap (λ b. advance_token b) (advanced n m a more (emit_ack a 1 pty) bus e low)

assign_rounds-line :
    (m n a : ℕ) (waits : ℕ → ℕ) (more : List ℕ) (pty : Socket) (bus : Bus)
    → a ≡ 2 + n
    → a + m < 128
    → assign_rounds (suc m) a waits more (stage (line n (fresh true) m) false pty bus)
      ≡ stage (row (n + suc m) 2) true (acks (suc m) a pty) bus
unfolding assign_rounds advance_token
assign_rounds-line zero n a waits more pty bus e low =
    let p = emit_ack a 1 (emit_ack a 1 pty) in
    let size : n + 1 ≡ suc n = omega arith in
    rw size (
      assign_round-line (waits a) n 0 a more pty bus e (omega arith)
      ∙ ap (λ (r : List BusClient × Bool). stage r.0 r.1 p bus) (line_ends n a e))
assign_rounds-line (suc m) n a waits more pty bus e low =
    let p = emit_ack a 1 (emit_ack a 1 pty) in
    let size : n + suc (suc m) ≡ suc n + suc m = omega arith in
    rw size (
      ap (assign_rounds (suc m) (a + 1) waits more) (
        assign_round-line (waits a) n (suc m) a more pty bus e (omega arith)
        ∙ ap (λ (r : List BusClient × Bool). stage r.0 r.1 p bus) (line_moves n a m e))
      ∙ assign_rounds-line m (suc n) (a + 1) waits more p bus (omega arith) (omega arith))

only_generic : (t : ClientType) → t ≡ generic
only_generic generic = refl

reset_told :
    (t : ClientType) (c : BusClient) (more : List ℕ) (pty : Socket)
    → msg_callback t c (reset_frame more) pty ≡ (reset_client c, pty)
unfolding msg_callback generic_msg build_frame
reset_told generic c more pty = rw (and_false (not (is_byte 0 c.address))) refl

all_reset :
    (cs : List BusClient) (more : List ℕ) (pty : Socket)
    → despatch_loop cs (reset_frame more) pty ≡ (replicate (length cs) (fresh false), pty)
unfolding despatch_loop
all_reset [] more pty = refl
all_reset (c ∷ cs) more pty =
    let blank : reset_client c ≡ fresh false =
      ap (λ t. record (fresh false) { client_type = t }) (only_generic c.client_type) in
    ap
      (λ (told : BusClient × Socket).
        let rest = despatch_loop cs (reset_frame more) told.1 in (told.0 ∷ rest.0, rest.1))
      (reset_told c.client_type c more pty)
    ∙ ap (λ d. let rest = despatch_loop cs (reset_frame more) pty in (d ∷ rest.0, rest.1)) blank
    ∙ ap (λ (r : List BusClient × Socket). (fresh false ∷ r.0, r.1)) (all_reset cs more pty)

-- RESET, then GEN_TOKEN, and a turn of the token.
unfoldable pub start_round : List ℕ → Bus → Bus
unfolding bus_command gateway_command advance_token
start_round more bus =
    advance_token (gateway_command (gen_token_frame more) 7 (bus_command (reset_frame more) bus))

generated :
    (more : List ℕ) (bus : Bus)
    → gateway_command (gen_token_frame more) 7 bus
      ≡ record bus { gw_has_token = true; gw_keep_token = false; pty = emit_ack 1 1 bus.pty }
unfolding gateway_command build_frame
generated more bus = refl

start_round_lem :
    (more : List ℕ) (bus : Bus)
    → start_round more bus
      ≡ advance_token
          (stage (replicate (length bus.clients) (fresh false)) true (emit_ack 1 1 bus.pty) bus)
unfolding start_round bus_command
start_round_lem more bus =
    ap (λ b. advance_token b) (generated more (bus_command (reset_frame more) bus))
    ∙ ap (λ (r : List BusClient × Socket). advance_token (stage r.0 true (emit_ack 1 1 r.1) bus))
        (all_reset bus.clients more bus.pty)

rounds_lem :
    (n : ℕ) (waits : ℕ → ℕ) (more : List ℕ) (pty : Socket) (bus : Bus)
    → n ≤ 126
    → assign_rounds n 2 waits more (advance_token (stage (replicate n (fresh false)) true pty bus))
      ≡ stage (row n 2) true (acks n 2 pty) bus
unfolding advance_token juggle_loop juggle_token assign_rounds
rounds_lem zero waits more pty bus fits = refl
rounds_lem (suc m) waits more pty bus fits =
    let size : 0 + suc m ≡ suc m = omega arith in
    ap
      (λ (r : List BusClient × Bool).
        assign_rounds (suc m) 2 waits more (stage (fresh true ∷ r.0) r.1 pty bus))
      (juggle_loop-nobody (replicate m (fresh false)) (holders-fresh m))
    ∙ assign_rounds-line m 0 2 waits more pty bus (omega arith) (omega arith)
    ∙ ap (λ k. stage (row k 2) true (acks (suc m) 2 pty) bus) size

-- The daemon enumerates a simulated bus of at most 126 clients, whatever their state: it sends
-- RESET and GEN_TOKEN, and then for each address from 2 on, as many as there are clients,
-- ADDR_ASSIGN and TOK_ADVANCE, each after as many turns of the token as one likes. Then the clients
-- have the addresses from 2 on in the order of the list, none has or keeps the token, and the
-- gateway has it; what was written is the acknowledgement of GEN_TOKEN, and that of both frames by
-- each client, in order.
pub enumeration_assigns :
    (bus : Bus) (waits : ℕ → ℕ) (more : List ℕ)
    → length bus.clients ≤ 126
    → let n = length bus.clients in
      assign_rounds n 2 waits more (start_round more bus) ≡ record bus {
        clients = row n 2;
        gw_has_token = true;
        gw_keep_token = false;
        pty = acks n 2 (emit_ack 1 1 bus.pty);
      }
enumeration_assigns bus waits more fits =
    let n = length bus.clients in
    ap (assign_rounds n 2 waits more) (start_round_lem more bus)
    ∙ rounds_lem n waits more (emit_ack 1 1 bus.pty) bus fits
