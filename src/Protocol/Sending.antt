-- ===== src/Protocol/Sending.antt =====
-- libsric/sric.c and sricd/ipc.c: a frame that a program sends reaches the transmit queue.
use sricd.Base.{
  ℕ, zero, suc, ◌+◌, ◌*◌, ◌/◌, ◌%◌, ◌^◌, ◌≤◌, ◌<◌, ◌≡◌, ◌≢◌, ◌∙◌, ap, refl, Bool, true, false, not,
  List, [], ◌∷◌, ◌++◌, some, arith, ==_refl, if◌then◌else◌, length, take, length-take, get_or,
}
use sricd.Base.Int.{pos, negsuc}
use sricd.World.{World, Platform, TxFrame, frame_sric, owner, ok}
use sricd.OutputQueue.{pri_1, txq_push}
use sricd.SricIf.Ready.{sric_if_tx_ready}
use sricd.Device.{device_exists}
use sricd.Ipc.{
  ipc_client_incoming, handle_command, handle_tx, read_payload, submit, write_result,
  requested_frame,
}
use sricd.Libsric.Core.{
  Context, SricFrame, error_none, error_badpayload, failed_with, check_frame, frame_error,
  address_error, answered, answer_error,
}
use sricd.Libsric.Transfer.{sric_tx, tx_command, of_context}
use sricd.Protocol.Stream.{request, sent_to, connected, send_command-connected}

-- A frame that `check_frame` accepts.
abbrev pub to_send : ℕ → ℕ → List ℕ → SricFrame
to_send address len payload = record {
  address = pos address;
  note = negsuc 0;
  payload_length = pos len;
  payload = payload;
}

check_frame-to_send :
    (address len : ℕ) (payload : List ℕ) (ctx : Context)
    → address < 128
    → address ≢ 1
    → len ≤ 64
    → check_frame (to_send address len payload) ctx ≡ (ctx, true)
unfolding check_frame frame_error address_error
check_frame-to_send address len payload ctx low other fits = ground arith

-- The bytes of the request, in the pieces that the daemon reads.
tx_command-to_send :
    (address len : ℕ) (payload : List ℕ)
    → address < 128
    → len ≤ 64
    → tx_command (to_send address len payload) ≡ 0 ∷ address ∷ 0 ∷ len ∷ 0 ∷ take len payload
unfolding tx_command
tx_command-to_send address len payload low fits =
    let a : address % 2 ^ 32 / 1 % 256 ≡ address = omega arith in
    let b : address % 2 ^ 32 / 256 % 256 ≡ 0 = omega arith in
    let c : len % 2 ^ 32 / 1 % 256 ≡ len = omega arith in
    let d : len % 2 ^ 32 / 256 % 256 ≡ 0 = omega arith in rw (a, b, c, d) refl

pub sric_tx-connected :
    (address len answer : ℕ) (payload rest written : List ℕ) (ctx : Context)
    → address < 128
    → address ≢ 1
    → len ≤ 64
    → let f = to_send address len payload in
      sric_tx (some (connected (answer ∷ rest) written ctx)) f
      ≡ of_context (
          answered
            (answer_error answer)
            (connected rest (written ++ tx_command f) (failed_with error_none ctx)))
unfolding sric_tx
sric_tx-connected address len answer payload rest written ctx low other fits =
    let f = to_send address len payload in
    let start = failed_with error_none (connected (answer ∷ rest) written ctx) in
    rw
      (
        check_frame-to_send address len payload start low other fits,
        send_command-connected (tx_command f) rest written answer (failed_with error_none ctx),
      )
      refl

-- What the answer does to the context.
pub told :
    (exists : Bool) (ctx : Context)
    → of_context (answered (answer_error (if exists then 0 else 1)) (failed_with error_none ctx))
      ≡ (some (record ctx { error = if exists then error_none else error_badpayload }), not exists)
told true ctx = refl
told false ctx = refl

-- The frame that the daemon makes of the request.
abbrev pub frame_sent : ℕ → ℕ → ℕ → List ℕ → TxFrame
frame_sent c address len payload = record {
  kind = frame_sric;
  address = address;
  tag = owner c;
  payload = take len payload;
}

take_twice : (n : ℕ) (xs : List ℕ) → take n (take n xs) ≡ take n xs
take_twice zero xs = refl
take_twice (suc n) [] = refl
take_twice (suc n) (x ∷ xs) = ap (◌∷◌ x) (take_twice n xs)

module _ ⦃env : Platform⦄ where
  -- The answer to a request to send to an address of the table.
  abbrev pub tx_answer : ℕ → World → ℕ
  tx_answer address w = if device_exists address w then 0 else 1

  abbrev pub after_tx : ℕ → TxFrame → World → World
  after_tx fd f w =
      write_result fd (tx_answer f.address w)
        (if device_exists f.address w then txq_push f pri_1 w else w)

  submit_lem :
      (fd : ℕ) (f : TxFrame) (w : World) → f.address < 128 → submit fd f w ≡ ok (after_tx fd f w)
  unfolding submit
  submit_lem fd f w low = ground arith

  read_payload_lem :
      (fd c len : ℕ) (header second : List ℕ) (w : World)
      → get_or header 2 0 + get_or header 3 0 * 256 ≡ len
      → length second ≡ len
      → len ≤ 64
      → read_payload fd c header (some second) w ≡ submit fd (requested_frame c header second) w
  unfolding read_payload
  read_payload_lem fd c len header second w asked size fits = ground arith

  pub ipc_client_incoming-tx :
      (fd c address len : ℕ) (payload : List ℕ) (w : World)
      → address < 128
      → len ≤ 64
      → len ≤ length payload
      → ipc_client_incoming fd c
          (request (1 ∷ 4 ∷ len ∷ []) (tx_command (to_send address len payload)))
          w
        ≡ ok (after_tx fd (frame_sent c address len payload) w, true)
  unfolding ipc_client_incoming handle_command handle_tx
  ipc_client_incoming-tx fd c address len payload w low fits held =
      rw (tx_command-to_send address len payload low fits, take_twice len payload)
        (let header = address ∷ 0 ∷ len ∷ 0 ∷ [] in
          let second = take len payload in
          let same : address + 0 * 256 ≡ address = omega arith in
          rw
            (
              read_payload_lem fd c len header second w (omega arith)
                  (omega (arith, length-take len payload)) fits,
              same,
              submit_lem fd (frame_sent c address len payload) w low,
            )
            refl)

  pub answer_sent :
      (fd : ℕ) (f : TxFrame) (w : World)
      → sent_to fd (after_tx fd f w).calls ≡ sent_to fd w.calls ++ tx_answer f.address w ∷ []
  unfolding txq_push sric_if_tx_ready write_result
  answer_sent fd f w = ground (arith, ==_refl fd)

  queued :
      (fd : ℕ) (f : TxFrame) (w : World)
      → (after_tx fd f w).tx_queue_1
        ≡ (if device_exists f.address w then w.tx_queue_1 ++ f ∷ [] else w.tx_queue_1)
  unfolding txq_push sric_if_tx_ready write_result
  queued fd f w = ground arith

  -- A program sends a frame with at most 64 bytes of payload to an address of the bus other than
  -- the gateway's, and nothing on the connection is cut short. The daemon, reading the bytes that
  -- were written, returns. If the device exists it queues the frame behind the others of the second
  -- priority, with the address and the payload that were given, and answers 0, whereupon `sric_tx`
  -- returns 0 and no error is set. If not it queues nothing and answers 1, whereupon `sric_tx`
  -- returns 1; the error set then is SRIC_ERROR_BADPAYLOAD.
  pub sric_tx-ipc_client_incoming :
      (fd c address len : ℕ) (payload rest written : List ℕ) (ctx : Context) (w : World)
      → address < 128
      → address ≢ 1
      → len ≤ 64
      → len ≤ length payload
      → let f = to_send address len payload in
        let exists = device_exists address w in
        (w' : World) × (answer : ℕ) × (ipc_client_incoming fd c
            (request (1 ∷ 4 ∷ len ∷ []) (tx_command f))
            w
          ≡ ok (w', true))
        × (sent_to fd w'.calls ≡ sent_to fd w.calls ++ answer ∷ [])
        × (w'.tx_queue_1 ≡ (
            if exists then w.tx_queue_1 ++ frame_sent c address len payload ∷ [] else w.tx_queue_1))
        × (sric_tx (some (connected (answer ∷ rest) written ctx)) f ≡ (
          some (
              connected rest
                (written ++ tx_command f)
                (record ctx { error = if exists then error_none else error_badpayload })),
          not exists,
        ))
  sric_tx-ipc_client_incoming fd c address len payload rest written ctx w low other fits held =
      let sent = frame_sent c address len payload in
      (
        after_tx fd sent w,
        tx_answer address w,
        ipc_client_incoming-tx fd c address len payload w low fits held,
        answer_sent fd sent w,
        queued fd sent w,
        sric_tx-connected address len (tx_answer address w) payload rest written ctx low other fits
            ∙ told (device_exists address w)
                (connected rest (written ++ tx_command (to_send address len payload)) ctx),
      )
