-- ===== src/Ostric/Generic.antt =====
-- ostric/generic.c: the generic client.
use sricd.Base.{
  ℕ, ◌%◌, Bool, true, false, not, ◌&&◌, ◌||◌, List, [], ◌∷◌, ◌==◌, if◌then◌else◌, get_or,
}
use sricd.Base.Int.{ℤ, pos, negsuc, is_minus_one}
use sricd.World.Socket.{Socket}
use sricd.SricEnum.{syscmd_reset, syscmd_tok_advance, syscmd_addr_assign, syscmd_addr_info}
use sricd.Ostric.{BusClient, ClientType, generic, emit_ack, emit_data_ack, as_byte}

-- Whether the byte is the number.
abbrev pub is_byte : ℕ → ℤ → Bool
is_byte b (pos n) = b == n
is_byte b (negsuc n) = false

-- The address that a frame is for, and the one that its answer is for.
abbrev pub meant_for : List ℕ → ℕ
meant_for buffer = get_or buffer 1 0 % 0x80

abbrev pub answer_to : List ℕ → ℕ
answer_to buffer = get_or buffer 2 0 % 0x80

abbrev pub reset_client : BusClient → BusClient
reset_client c = record c { address = negsuc 0; has_token = false; keep_token = true }

-- The case of ADDR_ASSIGN.
unfoldable pub take_address : BusClient → List ℕ → Socket → BusClient × Socket
take_address c buffer pty =
    if not (is_minus_one c.address) || not c.has_token
    then (c, pty)
    else let address = get_or buffer 5 0 % 0x80 in
      (record c { address = pos address }, emit_ack address (answer_to buffer) pty)

unfoldable pub generic_msg : BusClient → List ℕ → Socket → BusClient × Socket
generic_msg c buffer pty =
    let command = get_or buffer 4 0 in
    if not (is_byte (meant_for buffer) c.address) && not (meant_for buffer == 0)
    then (c, pty)
    else if command == syscmd_reset
    then (reset_client c, pty)
    else if command == syscmd_tok_advance
    then (record c { keep_token = false }, emit_ack (as_byte c.address) (answer_to buffer) pty)
    else if command == syscmd_addr_assign
    then take_address c buffer pty
    else if command == syscmd_addr_info
    then (c, emit_data_ack (as_byte c.address) (answer_to buffer) (0 ∷ []) pty)
    else (c, pty)

unfoldable pub generic_token : BusClient → BusClient
generic_token c = c

-- The callbacks of an entry of `client_types`.
unfoldable pub msg_callback : ClientType → BusClient → List ℕ → Socket → BusClient × Socket
msg_callback generic c buffer pty = generic_msg c buffer pty

unfoldable pub token_callback : ClientType → BusClient → BusClient
token_callback generic c = generic_token c
