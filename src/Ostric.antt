-- ===== src/Ostric.antt =====
-- ostric/ostric.h and ostric/reply.c: the simulated bus, its clients, and what it writes.
pub mod Generic
pub mod Commands
pub mod Token
pub mod Parsing
pub mod Rotation
pub mod Request
pub mod Addressing
pub mod Enumerated
pub mod Enumeration
pub mod Wire
pub mod Intake
pub mod Blocked
pub mod StartUp
use sricd.Base.{
  ℕ, ◌+◌, ◌/◌, ◌%◌, Bool, true, false, not, List, [], ◌∷◌, ◌++◌, Option, none, some, length, take,
  drop,
}
use sricd.Base.Int.{negsuc, pos, word, ℤ}
use sricd.World.Socket.{Socket, write_result, after_write, took}
use sricd.Crc16.{crc16}
use sricd.Escape.{Escaped, escape_frame}

-- The entries of `client_types`, each with its two callbacks.
pub data ClientType : Type 0 where
  generic : ClientType

-- `struct ostric_client`, without the fields that nothing reads.
pub record BusClient : Type 0 where
  pub client_type : ClientType
  pub address : ℤ
  pub has_token : Bool
  pub keep_token : Bool

-- The statics of ostric/ostric.c. `pty_buf` is the bytes in use, `pty_buf_len` is their number.
pub record Bus : Type 0 where
  pub clients : List BusClient
  pub gw_token_mode : Bool
  pub gw_has_token : Bool
  pub gw_keep_token : Bool
  pub pty_buf : List ℕ
  pub pty : Socket

-- `resp` before it is escaped.
unfoldable pub reply_frame : ℕ → ℕ → List ℕ → List ℕ
reply_frame src dst payload =
    let head = 0x7E ∷ dst % 256 ∷ src % 0x80 ∷ length payload % 256 ∷ payload in
    let crc = crc16 head (length payload + 4) in head ++ crc % 256 ∷ crc / 256 % 256 ∷ []

-- The bytes that `write` is given: `escaped_len + 1` of `resp`.
abbrev pub escaped_reply : Escaped → List ℕ
escaped_reply e = elim e.result [ negsuc n ↦ [] | pos n ↦ take (n + 1) (0x7E ∷ e.buffer) ]

unfoldable pub reply_bytes : ℕ → ℕ → List ℕ → List ℕ
reply_bytes src dst payload =
    escaped_reply (escape_frame (drop 1 (reply_frame src dst payload)) (5 + length payload) 255)

-- The flag is the value returned, `true` for 1. The callers send one byte of data at most.
unfoldable pub send_msg : ℕ → ℕ → List ℕ → Socket → Socket × Bool
send_msg src dst payload pty =
    let bytes = reply_bytes src dst payload in
    (after_write bytes pty, not (took (write_result bytes pty) (length bytes)))

-- `(dst) | 0x80`.
abbrev pub acknowledging : ℕ → ℕ
acknowledging dst = 0x80 + dst % 0x80

unfoldable pub emit_ack : ℕ → ℕ → Socket → Socket
emit_ack src dst pty = (send_msg src (acknowledging dst) [] pty).0

unfoldable pub emit_data_ack : ℕ → ℕ → List ℕ → Socket → Socket
emit_data_ack src dst payload pty = (send_msg src (acknowledging dst) payload pty).0

-- An `int` as the argument of `send_msg`.
abbrev pub as_byte : ℤ → ℕ
as_byte address = word address % 256
