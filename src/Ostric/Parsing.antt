-- ===== src/Ostric/Parsing.antt =====
-- ostric/ostric.c: reading frames off the terminal.
use sricd.Base.{
  ℕ, ◌+◌, ◌-◌, ◌*◌, ◌%◌, Bool, true, false, not, ◌||◌, List, [], ◌∷◌, ◌++◌, Option, none, some, ltb,
  ◌==◌, if◌then◌else◌, length, drop, overwrite, get_or,
}
use sricd.Base.Int.{negsuc}
use sricd.World.{Outcome, ok, exited, ◌>>=◌}
use sricd.World.Socket.{read_result, after_read}
use sricd.Crc16.{crc16}
use sricd.Escape.{unescape}
use sricd.Ostric.{BusClient, Bus, ClientType, generic}
use sricd.Ostric.Commands.{bus_command, gateway_command}
use sricd.Ostric.Token.{advance_token}

abbrev pub pty_buf_size : ℕ
pty_buf_size = 128

abbrev pub tmp_buf_size : ℕ
tmp_buf_size = 128

abbrev pub received : Option (List ℕ) → Bus → Outcome Bus
received none bus = exited
received (some bytes) bus = ok (record bus { pty_buf = bus.pty_buf ++ bytes })

unfoldable pub try_reading_stuff : Bus → Outcome Bus
try_reading_stuff bus =
    let n = pty_buf_size - length bus.pty_buf in
    received (read_result n bus.pty) (record bus { pty = after_read n bus.pty })

abbrev pub command_length : List ℕ → ℕ
command_length buffer = get_or buffer 3 0 % 0x40 + 6

abbrev pub sent_crc : List ℕ → ℕ
sent_crc buffer =
    let n = command_length buffer in get_or buffer (n - 2) 0 + get_or buffer (n - 1) 0 * 256

-- The flag is the value returned, `true` for 1: there is not enough yet.
unfoldable pub process_command : List ℕ → ℕ → Bus → Bus × Bool
process_command buffer len bus =
    let n = command_length buffer in
    if ltb len n
    then (bus, true)
    else if not (crc16 buffer (n - 2) == sent_crc buffer)
    then (bus, false)
    else if get_or buffer 0 0 == 0x8E
    then (gateway_command buffer n bus, false)
    else (bus_command buffer bus, false)

abbrev pub starts_frame : ℕ → Bool
starts_frame x = (x == 0x7E) || (x == 0x8E)

-- The buffer from its first framing byte on: the rounds that go back to `and_again`.
unfoldable pub from_start : List ℕ → List ℕ
from_start [] = []
from_start (x ∷ xs) = let rest = from_start xs in if starts_frame x then x ∷ xs else rest

-- What `process_command` took is shifted out.
abbrev pub shifted_out : List ℕ → ℕ → Bus × Bool → Bus
shifted_out buf src_len (bus, true) = bus
shifted_out buf src_len (bus, false) = record bus { pty_buf = drop src_len buf }

-- `stale` is what `tmp_buf` holds before the call.
unfoldable pub parse_frame : List ℕ → ℕ → List ℕ → Bus → Bus
parse_frame stale x src bus =
    let u = unescape src (length src) (tmp_buf_size - 1) in
    shifted_out (x ∷ src) (u.spos + 1)
      (process_command (overwrite (x ∷ u.out) stale) (length u.out + 1) bus)

abbrev parse_from : List ℕ → List ℕ → Bus → Bus
parse_from stale [] bus = bus
parse_from stale (x ∷ src) bus = parse_frame stale x src bus

unfoldable pub try_parsing_stuff : List ℕ → Bus → Bus
try_parsing_stuff stale bus =
    let buf = from_start bus.pty_buf in parse_from stale buf (record bus { pty_buf = buf })

unfoldable pub read_frames : List ℕ → Bool → Bus → Outcome Bus
read_frames stale true bus = try_reading_stuff bus >>= λ bus'. ok (try_parsing_stuff stale bus')
read_frames stale false bus = ok (try_parsing_stuff stale bus)

-- A round of the loop of `main`; the flag says whether `poll` found something to read.
unfoldable pub main_round : List ℕ → Bool → Bus → Outcome Bus
main_round stale readable bus =
    (if readable || not (length bus.pty_buf == 0) then read_frames stale readable bus else ok bus)
    >>= λ bus'. ok (advance_token bus')

abbrev pub new_client : ClientType → BusClient
new_client t = record { client_type = t; address = negsuc 0; has_token = false; keep_token = false }

-- `strcmp` against "generic".
abbrev pub generic_name : List ℕ
generic_name = 103 ∷ 101 ∷ 110 ∷ 101 ∷ 114 ∷ 105 ∷ 99 ∷ []

unfoldable pub same_text : List ℕ → List ℕ → Bool
same_text [] [] = true
same_text (x ∷ xs) (y ∷ ys) = let rest = same_text xs ys in if x == y then rest else false
same_text _ _ = false

-- The arguments behind the name of the program.
unfoldable pub read_arguments : List (List ℕ) → Bus → Outcome Bus
read_arguments [] bus = ok bus
read_arguments (name ∷ names) bus =
    let rest =
      read_arguments names (record bus { clients = bus.clients ++ new_client generic ∷ [] }) in
    if same_text generic_name name then rest else exited
