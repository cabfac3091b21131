-- ===== src/Libsric/Core.antt =====
-- libsric/sric.c: the context, its errors, and the conversation with the daemon.
use sricd.Base.{
  ℕ, zero, Bool, true, false, not, ◌&&◌, List, [], ◌∷◌, Option, none, some, ltb, leb, ◌==◌,
  if◌then◌else◌, length,
}
use sricd.Base.Int.{ℤ, pos, negsuc, is_minus_one}
use sricd.World.{Outcome, ok, fault}
pub use sricd.World.Socket.{
  Socket, rest_of, limited, got, read_result, after_read, write_result, after_write, took,
}

-- `sric_error`.
pub data SricError : Type 0 where
  error_none error_nosuchaddress error_nosendnote error_badpayload error_sricd : SricError
  error_loop error_timeout error_broadcast : SricError

-- `sric_frame`; `payload` is the 64 bytes of the field.
pub record SricFrame : Type 0 where
  pub address : ℤ
  pub note : ℤ
  pub payload_length : ℤ
  pub payload : List ℕ

-- `sric_device`.
pub record SricDevice : Type 0 where
  pub address : ℤ
  pub kind : ℤ

-- `struct _sric_context`; `devices` is NULL, or the array with its sentinel.
pub record Context : Type 0 where
  pub error : SricError
  pub noteflags : ℕ → ℕ
  pub devices : Option (List SricDevice)
  pub socket : Socket

abbrev pub max_payload_size : ℕ
max_payload_size = 64

abbrev pub high_address : ℕ
high_address = 128

-- `socket` returned `fd`, and `connect` made the connection, or failed.
unfoldable pub sric_init : ℤ → Option Socket → Option Context
sric_init (pos zero) connection = none
sric_init fd none = none
sric_init fd (some s) =
    some (record { error = error_none; noteflags = λ _. 0; devices = none; socket = s })

-- The context is freed: `none` stands for the pointer after it.
unfoldable pub sric_quit : Option Context → Outcome (Option Context)
sric_quit none = fault
sric_quit (some ctx) = ok none

unfoldable pub sric_get_error : Option Context → SricError
sric_get_error none = error_sricd
sric_get_error (some ctx) = ctx.error

abbrev pub failed_with : SricError → Context → Context
failed_with e ctx = record ctx { error = e }

unfoldable pub sric_clear_error : Option Context → Option Context
sric_clear_error none = none
sric_clear_error (some ctx) = some (failed_with error_none ctx)

-- The error that `check_address` sets, if any.
unfoldable pub address_error : ℤ → Bool → Option SricError
address_error (negsuc n) allow_broadcast = some error_nosuchaddress
address_error (pos n) allow_broadcast =
    if (n == 0) && not allow_broadcast
    then some error_broadcast
    else if n == 1
    then some error_loop
    else if leb high_address n
    then some error_nosuchaddress
    else none

-- The flag is the value returned.
abbrev pub checked : Option SricError → Context → Context × Bool
checked none ctx = (ctx, true)
checked (some e) ctx = (failed_with e ctx, false)

unfoldable pub check_address : ℤ → Bool → Context → Context × Bool
unfolding address_error
check_address address allow_broadcast ctx = checked (address_error address allow_broadcast) ctx

abbrev pub bad_length : ℤ → Bool
bad_length (negsuc n) = true
bad_length (pos n) = ltb max_payload_size n

-- The error that `check_frame` sets, if any.
unfoldable pub frame_error : SricFrame → Option SricError
unfolding address_error
frame_error f = elim (address_error f.address true) [
  | some e ↦ some e
  | none ↦
      if not (is_minus_one f.note)
      then some error_nosendnote
      else if bad_length f.payload_length
      then some error_badpayload
      else none
]

unfoldable pub check_frame : SricFrame → Context → Context × Bool
unfolding frame_error
check_frame f ctx = checked (frame_error f) ctx

-- The error that an answer other than 0 stands for.
abbrev pub answer_error : ℕ → Option SricError
answer_error result =
    if result == 1
    then some error_badpayload
    else if result == 2
    then some error_timeout
    else if not (result == 0)
    then some error_sricd
    else none

-- The flag is the value returned: `true` is 1, a failure.
abbrev pub answered : Option SricError → Context → Context × Bool
answered none ctx = (ctx, false)
answered (some e) ctx = (failed_with e ctx, true)

-- The byte of the answer; it is read whole, or the call failed.
abbrev pub answer_of : Option (List ℕ) → Option SricError
answer_of (some (result ∷ [])) = answer_error result
answer_of _ = some error_sricd

unfoldable pub send_command : List ℕ → Context → Context × Bool
send_command bytes ctx =
    let sent = record ctx { socket = after_write bytes ctx.socket } in
    if not (took (write_result bytes ctx.socket) (length bytes))
    then answered (some error_sricd) sent
    else answered (answer_of (read_result 1 sent.socket))
        (record sent { socket = after_read 1 sent.socket })

-- The bytes that were stored, and the value returned.
unfoldable pub read_data : ℕ → Context → Context × List ℕ × Bool
read_data n ctx =
    let result = read_result n ctx.socket in
    let next = record ctx { socket = after_read n ctx.socket } in
    if took result n
    then (next, got result, false)
    else (failed_with error_sricd next, got result, true)
