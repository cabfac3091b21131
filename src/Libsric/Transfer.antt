-- ===== src/Libsric/Transfer.antt =====
-- libsric/sric.c: sending a frame, and polling for one.
use sricd.Base.{
  ℕ, ◌+◌, ◌*◌, ◌/◌, ◌%◌, ◌^◌, Bool, true, false, List, [], ◌∷◌, Option, none, some, ltb, ◌==◌,
  if◌then◌else◌, length, take, overwrite, get_or,
}
use sricd.Base.Int.{ℤ, pos, negsuc, word}
use sricd.World.{Outcome, ok, fault, ◌>>=◌}
use sricd.Ipc.{sricd_tx, sricd_poll_rx, sricd_poll_note}
use sricd.Libsric.Core.{
  Context, SricFrame, max_payload_size, failed_with, error_none, check_frame, send_command,
  read_data,
}

-- `(x >> shift) & 0xFF`, where `shift` is given as the power of two.
abbrev pub byte_of : ℤ → ℕ → ℕ
byte_of x power = word x / power % 256

-- `payload_length` of a frame that was checked.
abbrev pub magnitude : ℤ → ℕ
magnitude (pos n) = n
magnitude (negsuc n) = 0

-- The bytes of the request.
unfoldable pub tx_command : SricFrame → List ℕ
tx_command f =
    sricd_tx
    ∷ byte_of f.address 1
    ∷ byte_of f.address 256
    ∷ byte_of f.payload_length 1
    ∷ byte_of f.payload_length 256
    ∷ take (magnitude f.payload_length) f.payload

abbrev send_if : List ℕ → Context × Bool → Context × Bool
send_if command (ctx, true) = send_command command ctx
send_if command (ctx, false) = (ctx, true)

abbrev pub of_context : Context × Bool → Option Context × Bool
of_context (ctx, failed) = (some ctx, failed)

-- The flag is the value returned: `true` is 1, a failure.
unfoldable pub sric_tx : Option Context → SricFrame → Option Context × Bool
unfolding check_frame tx_command send_command
sric_tx none frame = (none, true)
sric_tx (some ctx) frame =
    of_context (send_if (tx_command frame) (check_frame frame (failed_with error_none ctx)))

unfoldable pub poll_command : ℤ → ℕ → List ℕ
poll_command timeout request =
    request
    ∷ byte_of timeout (2 ^ 24)
    ∷ byte_of timeout (2 ^ 16)
    ∷ byte_of timeout (2 ^ 8)
    ∷ byte_of timeout 1
    ∷ []

-- `ntohs` of the two bytes that were read.
abbrev pub ntohs : List ℕ → ℕ
ntohs bytes = get_or bytes 0 0 * 256 + get_or bytes 1 0

-- What a call of `sric_poll` leaves: the context, the frame, and the value returned.
pub record Polled : Type 0 where
  pub ctx : Context
  pub frame : SricFrame
  pub failed : Bool

-- The `read_data` of two bytes, and what follows if it succeeds.
abbrev pub next_field :
    Context × List ℕ × Bool → SricFrame → (Context → ℕ → Outcome Polled) → Outcome Polled
next_field (ctx, bytes, true) frame next = ok (record { ctx = ctx; frame = frame; failed = true })
next_field (ctx, bytes, false) frame next = next ctx (ntohs bytes)

-- The bytes that were read stand in `payload`; more than 64 leave the field.
abbrev pub payload_read : SricFrame → Context × List ℕ × Bool → Outcome Polled
payload_read frame (ctx, bytes, failed) =
    if ltb max_payload_size (length bytes)
    then fault
    else ok (record {
      ctx = ctx;
      frame = record frame { payload = overwrite bytes frame.payload };
      failed = failed;
    })

-- The response: address, note, length, and the payload, if there is any.
unfoldable pub read_payload : SricFrame → ℕ → Context → Outcome Polled
unfolding read_data
read_payload frame n ctx =
    if n == 0
    then ok (record { ctx = ctx; frame = frame; failed = false })
    else payload_read frame (read_data n ctx)

unfoldable pub read_response : SricFrame → Context → Outcome Polled
unfolding read_data read_payload
read_response frame ctx = next_field (read_data 2 ctx) frame (λ ctx1 address.
    let frame1 = record frame { address = pos address } in
    next_field (read_data 2 ctx1) frame1 (λ ctx2 note.
      let frame2 = record frame1 { note = pos note } in
      next_field (read_data 2 ctx2) frame2
        (λ ctx3 n. read_payload (record frame2 { payload_length = pos n }) n ctx3)))

abbrev response_if : SricFrame → Context × Bool → Outcome Polled
response_if frame (ctx, true) = ok (record { ctx = ctx; frame = frame; failed = true })
response_if frame (ctx, false) = read_response frame ctx

-- `sric_poll` on a context that is not NULL.
unfoldable pub sric_poll_some : Context → SricFrame → ℤ → ℕ → Outcome Polled
unfolding poll_command send_command read_response
sric_poll_some ctx frame timeout request =
    response_if frame (send_command (poll_command timeout request) (failed_with error_none ctx))

abbrev pub polled : Polled → Option Context × SricFrame × Bool
polled p = (some p.ctx, p.frame, p.failed)

unfoldable pub sric_poll :
    Option Context → SricFrame → ℤ → ℕ → Outcome (Option Context × SricFrame × Bool)
unfolding sric_poll_some
sric_poll none frame timeout request = ok (none, frame, true)
sric_poll (some ctx) frame timeout request =
    sric_poll_some ctx frame timeout request >>= λ p. ok (polled p)

unfoldable pub sric_poll_rx :
    Option Context → SricFrame → ℤ → Outcome (Option Context × SricFrame × Bool)
unfolding sric_poll
sric_poll_rx ctx frame timeout = sric_poll ctx frame timeout sricd_poll_rx

unfoldable pub sric_poll_note :
    Option Context → SricFrame → ℤ → Outcome (Option Context × SricFrame × Bool)
unfolding sric_poll
sric_poll_note ctx frame timeout = sric_poll ctx frame timeout sricd_poll_note

abbrev poll_unless :
    Option Context × Bool → SricFrame → ℤ → Outcome (Option Context × SricFrame × Bool)
poll_unless (ctx, true) inframe timeout = ok (ctx, inframe, true)
poll_unless (ctx, false) inframe timeout = sric_poll_rx ctx inframe timeout

unfoldable pub sric_txrx :
    Option Context → SricFrame → SricFrame → ℤ → Outcome (Option Context × SricFrame × Bool)
unfolding sric_tx sric_poll_rx
sric_txrx ctx outframe inframe timeout = poll_unless (sric_tx ctx outframe) inframe timeout

-- Waits without a timeout.
unfoldable pub sric_note : Option Context → SricFrame → Outcome (Option Context × SricFrame × Bool)
unfolding sric_poll_note
sric_note ctx frame = sric_poll_note ctx frame (negsuc 0)
