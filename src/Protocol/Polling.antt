-- ===== src/Protocol/Polling.antt =====
-- libsric/sric.c and sricd/ipc.c: a program that polls gets the frame that the daemon has for it.
use sricd.Base.{
  ℕ, ◌+◌, ◌*◌, ◌/◌, ◌%◌, ◌≤◌, ◌≡◌, ◌∙◌, ap, refl, true, false, List, [], ◌∷◌, ◌++◌, some, arith,
  ==_refl, length, take, drop, overwrite, append_assoc,
}
use sricd.Base.Int.{ℤ, pos, negsuc, word}
use sricd.World.{World, Platform, Client, Frame, Outcome, ok, ◌>>=◌, client_write}
use sricd.Client.{send_rx, response_header, put_client, client_pop_rx, client_pop_note, pop_tail}
use sricd.Ipc.{
  ipc_client_incoming, handle_command, handle_poll_rx, handle_poll_note, rx_answer, note_answer,
  network_order,
}
use sricd.Client.Waiting.{get_client-live}
use sricd.Ipc.Polling.{client_pop_rx-live}
use sricd.Libsric.Core.{Context, SricFrame, error_none, failed_with}
use sricd.Libsric.Transfer.{
  Polled, sric_poll, sric_poll_rx, sric_poll_note, poll_command, read_response, read_payload,
  polled,
}
use sricd.Protocol.Stream.{request, sent_to, sent_to-write, connected, read_data-connected}

-- The frame that `sric_poll` fills in.
abbrev pub frame_got : Frame → SricFrame → SricFrame
frame_got f old = record {
  address = pos f.source_address;
  note = pos f.note;
  payload_length = pos (length f.payload);
  payload = overwrite f.payload old.payload;
}

read_payload-connected :
    (frame : SricFrame) (payload rest written : List ℕ) (ctx : Context)
    → length payload ≤ 64
    → read_payload frame (length payload) (connected (payload ++ rest) written ctx)
      ≡ ok (record {
        ctx = connected rest written ctx;
        frame = record frame { payload = overwrite payload frame.payload };
        failed = false;
      })
unfolding read_payload
read_payload-connected frame [] rest written ctx fits = refl
read_payload-connected frame (b ∷ payload) rest written ctx fits =
    rw (read_data-connected (b ∷ payload) rest written ctx) (ground arith)

read_response-connected :
    (f : Frame) (frame : SricFrame) (rest written : List ℕ) (ctx : Context)
    → length f.payload ≤ 64
    → read_response frame (
        connected
          (0 ∷ f.source_address ∷ f.note / 256 ∷ f.note % 256 ∷ 0 ∷ length f.payload ∷ f.payload
            ++ rest)
          written
          ctx)
      ≡ ok (record { ctx = connected rest written ctx; frame = frame_got f frame; failed = false })
unfolding read_response
read_response-connected f frame rest written ctx fits =
    let n : f.note / 256 * 256 + f.note % 256 ≡ f.note = omega arith in
    let frame' : SricFrame = record frame {
      address = pos f.source_address;
      note = pos f.note;
      payload_length = pos (length f.payload);
    } in
    let a : 0 + f.source_address ≡ f.source_address = omega arith in
    let m : 0 + length f.payload ≡ length f.payload = omega arith in
    rw (n, a, m) (read_payload-connected frame' f.payload rest written ctx fits)

-- A poll that is answered by a frame, whatever is polled for.
sric_poll-connected :
    (f : Frame) (frame : SricFrame) (timeout : ℤ) (asked : ℕ) (rest written : List ℕ)
    (ctx : Context)
    → length f.payload ≤ 64
    → sric_poll
        (some (connected (response_header f ++ f.payload ++ rest) written ctx))
        frame
        timeout
        asked
      ≡ ok (
        some (connected rest (written ++ poll_command timeout asked) (failed_with error_none ctx)),
        frame_got f frame,
        false,
      )
unfolding sric_poll response_header
sric_poll-connected f frame timeout asked rest written ctx fits =
    ap (λ (m : Outcome Polled). m >>= λ p. ok (polled p))
      (read_response-connected f frame rest (written ++ poll_command timeout asked)
        (failed_with error_none ctx) fits)

-- The four bytes of the timeout are the word that the daemon reads.
network_order-poll_command :
    (timeout : ℤ) (asked : ℕ)
    → network_order 0 (take 4 (drop 1 (poll_command timeout asked))) ≡ word timeout
unfolding network_order poll_command
network_order-poll_command (pos n) asked = omega arith
network_order-poll_command (negsuc n) asked = omega arith

module _ ⦃env : Platform⦄ where
  poll_request :
      (fd c : ℕ) (timeout : ℤ) (w : World)
      → ipc_client_incoming fd c (request (1 ∷ 4 ∷ []) (poll_command timeout 2)) w
        ≡ (client_pop_rx c w >>= rx_answer fd c (word timeout) >>= λ w'. ok (w', true))
  unfolding ipc_client_incoming handle_command handle_poll_rx poll_command
  poll_request fd c timeout w =
      ap (λ t. client_pop_rx c w >>= rx_answer fd c t >>= λ w'. ok (w', true))
        (network_order-poll_command timeout 2)

  note_request :
      (fd c : ℕ) (timeout : ℤ) (w : World)
      → ipc_client_incoming fd c (request (1 ∷ 4 ∷ []) (poll_command timeout 3)) w
        ≡ (client_pop_note c w >>= note_answer fd c (word timeout) >>= λ w'. ok (w', true))
  unfolding ipc_client_incoming handle_command handle_poll_note poll_command
  note_request fd c timeout w =
      ap (λ t. client_pop_note c w >>= note_answer fd c t >>= λ w'. ok (w', true))
        (network_order-poll_command timeout 3)

client_pop_note-live :
    (c : ℕ) (x : Client) (w : World)
    → w.clients c ≡ some x
    → client_pop_note c w
      ≡ ok ((pop_tail x.note_q).0, put_client c (record x { note_q = (pop_tail x.note_q).1 }) w)
unfolding client_pop_note
client_pop_note-live c x w live = rw (get_client-live c x w live) refl

-- The bytes of a frame, behind what was sent before.
send_rx-sent_to :
    (fd : ℕ) (f : Frame) (w : World)
    → sent_to fd (send_rx fd f w).calls ≡ sent_to fd w.calls ++ (response_header f ++ f.payload)
unfolding send_rx
send_rx-sent_to fd f w =
    sent_to-write fd f.payload (client_write fd (response_header f) ∷ w.calls)
    ∙ ap (λ sent. sent ++ f.payload) (sent_to-write fd (response_header f) w.calls)
    ∙ append_assoc (sent_to fd w.calls) (response_header f) f.payload

put_client_self : (c : ℕ) (x : Client) (w : World) → (put_client c x w).clients c ≡ some x
put_client_self c x w = rw (==_refl c) refl

module _ ⦃env : Platform⦄ where
  -- A program polls for an acknowledgement, with any timeout, while the daemon holds one for it, of
  -- at most 64 bytes, and nothing on the connection is cut short. The daemon, reading the bytes
  -- that were written, returns; it takes the oldest frame off the client's queue and answers. The
  -- call of `sric_poll_rx` that reads the answer returns 0 with no error set, it reads no byte
  -- more, and the frame that it fills in has the source, the note and the payload of that frame.
  pub sric_poll_rx-ipc_client_incoming :
      (fd c : ℕ) (x : Client) (f : Frame) (fs : List Frame) (old : SricFrame) (timeout : ℤ)
      (rest written : List ℕ) (ctx : Context) (w : World)
      → w.clients c ≡ some x
      → x.rx_q ≡ f ∷ fs
      → length f.payload ≤ 64
      → (w' : World) × (answer : List ℕ) × (ipc_client_incoming fd c
            (request (1 ∷ 4 ∷ []) (poll_command timeout 2))
            w
          ≡ ok (w', true))
        × (w'.clients c ≡ some (record x { rx_q = fs }))
        × (sent_to fd w'.calls ≡ sent_to fd w.calls ++ answer)
        × (sric_poll_rx (some (connected (answer ++ rest) written ctx)) old timeout
            ≡ ok (
              some (
                  connected rest
                    (written ++ poll_command timeout 2)
                    (record ctx { error = error_none })),
              frame_got f old,
              false,
            ))
  unfolding sric_poll_rx send_rx
  sric_poll_rx-ipc_client_incoming fd c x f fs old timeout rest written ctx w live queue fits =
      let v = put_client c (record x { rx_q = fs }) w in
      (
        send_rx fd f v,
        response_header f ++ f.payload,
        poll_request fd c timeout w ∙ rw (client_pop_rx-live c x w live, queue) refl,
        put_client_self c (record x { rx_q = fs }) w,
        send_rx-sent_to fd f v,
        sric_poll-connected f old timeout 2 rest written ctx fits,
      )

  -- The same for a note and `sric_poll_note`.
  pub sric_poll_note-ipc_client_incoming :
      (fd c : ℕ) (x : Client) (f : Frame) (fs : List Frame) (old : SricFrame) (timeout : ℤ)
      (rest written : List ℕ) (ctx : Context) (w : World)
      → w.clients c ≡ some x
      → x.note_q ≡ f ∷ fs
      → length f.payload ≤ 64
      → (w' : World) × (answer : List ℕ) × (ipc_client_incoming fd c
            (request (1 ∷ 4 ∷ []) (poll_command timeout 3))
            w
          ≡ ok (w', true))
        × (w'.clients c ≡ some (record x { note_q = fs }))
        × (sent_to fd w'.calls ≡ sent_to fd w.calls ++ answer)
        × (sric_poll_note (some (connected (answer ++ rest) written ctx)) old timeout
            ≡ ok (
              some (
                  connected rest
                    (written ++ poll_command timeout 3)
                    (record ctx { error = error_none })),
              frame_got f old,
              false,
            ))
  unfolding sric_poll_note send_rx
  sric_poll_note-ipc_client_incoming fd c x f fs old timeout rest written ctx w live queue fits =
      let v = put_client c (record x { note_q = fs }) w in
      (
        send_rx fd f v,
        response_header f ++ f.payload,
        note_request fd c timeout w ∙ rw (client_pop_note-live c x w live, queue) refl,
        put_client_self c (record x { note_q = fs }) w,
        send_rx-sent_to fd f v,
        sric_poll-connected f old timeout 3 rest written ctx fits,
      )
