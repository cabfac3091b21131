-- ===== src/Ostric/Token.antt =====
-- ostric/token.c: the token goes round.
use sricd.Base.{Bool, false, ◌&&◌, List, [], ◌∷◌, if◌then◌else◌}
use sricd.Ostric.{BusClient, Bus}
use sricd.Ostric.Generic.{token_callback}

-- The flag is `token_on_wire`, before and after.
unfoldable pub juggle_token : BusClient → Bool → BusClient × Bool
juggle_token c on_wire =
    if c.has_token && c.keep_token
    then (token_callback c.client_type c, false)
    else (record c { has_token = on_wire }, c.has_token)

-- `juggle_token` for each client in turn.
unfoldable pub juggle_loop : List BusClient → Bool → List BusClient × Bool
juggle_loop [] on_wire = ([], on_wire)
juggle_loop (c ∷ cs) on_wire =
    let here = juggle_token c on_wire in
    let rest = juggle_loop cs here.1 in (here.0 ∷ rest.0, rest.1)

unfoldable pub advance_token : Bus → Bus
advance_token bus =
    if bus.gw_keep_token && bus.gw_has_token
    then bus
    else let moved = juggle_loop bus.clients bus.gw_has_token in
      record bus { clients = moved.0; gw_has_token = moved.1 }
