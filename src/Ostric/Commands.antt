-- ===== src/Ostric/Commands.antt =====
-- ostric/cmds.c: frames for the bus and for the gateway.
use sricd.Base.{ℕ, true, false, not, List, [], ◌∷◌, ltb, ◌==◌, if◌then◌else◌, get_or}
use sricd.World.Socket.{Socket}
use sricd.SricEnum.{
  gw_cmd_use_token_code, gw_cmd_req_token_code, gw_cmd_have_token_code, gw_cmd_gen_token_code,
}
use sricd.Ostric.{BusClient, Bus, emit_ack, emit_data_ack}
use sricd.Ostric.Generic.{msg_callback}

-- `bus_cmd_despatch` for each client in turn.
unfoldable pub despatch_loop : List BusClient → List ℕ → Socket → List BusClient × Socket
despatch_loop [] buffer pty = ([], pty)
despatch_loop (c ∷ cs) buffer pty =
    let told = msg_callback c.client_type c buffer pty in
    let rest = despatch_loop cs buffer told.1 in (told.0 ∷ rest.0, rest.1)

unfoldable pub bus_command : List ℕ → Bus → Bus
bus_command buffer bus =
    let told = despatch_loop bus.clients buffer bus.pty in
    record bus { clients = told.0; pty = told.1 }

-- The acknowledgement of a command to the gateway.
abbrev pub acknowledged : List ℕ → Bus → Bus
acknowledged buffer bus = record bus {
  pty = emit_ack (get_or buffer 1 0) (get_or buffer 2 0) bus.pty;
}

unfoldable pub use_token : List ℕ → ℕ → Bus → Bus
use_token buffer len bus =
    if not (len == 8)
    then bus
    else acknowledged buffer (record bus { gw_token_mode = not (get_or buffer 5 0 == 0) })

unfoldable pub have_token : List ℕ → Bus → Bus
have_token buffer bus = record bus {
  pty =
      emit_data_ack (get_or buffer 1 0) (get_or buffer 2 0)
        ((if bus.gw_has_token then 1 else 0) ∷ []) bus.pty;
}

unfoldable pub gateway_command : List ℕ → ℕ → Bus → Bus
gateway_command buffer len bus =
    let command = get_or buffer 4 0 in
    if ltb len 5
    then bus
    else if command == gw_cmd_use_token_code
    then use_token buffer len bus
    else if command == gw_cmd_gen_token_code
    then acknowledged buffer (record bus { gw_has_token = true; gw_keep_token = false })
    else if command == gw_cmd_req_token_code
    then acknowledged buffer (record bus { gw_keep_token = true })
    else if command == gw_cmd_have_token_code
    then have_token buffer bus
    else bus
