-- ===== src/Protocol/Flags.antt =====
-- libsric/sric.c and sricd/ipc.c: registering for notes, and what a failed call leaves behind.
use sricd.Base.{
  ℕ, ◌^◌, ◌≤◌, ◌<◌, ◌≡◌, ◌≢◌, ◌∙◌, ap, refl, true, false, List, [], ◌∷◌, ◌++◌, some, arith,
}
use sricd.Base.Int.{pos}
use sricd.World.{World, Platform, Client, ok, ◌>>=◌, update}
use sricd.Device.{device_exists, device_set_client_notes}
use sricd.Device.Notes.{OnceEach}
use sricd.Device.Registration.{Registers, device_set_client_notes_lem}
use sricd.Ipc.{
  ipc_client_incoming, handle_command, handle_note_flags, register_flags, network_order,
  write_result,
}
use sricd.Libsric.Core.{Context, error_none, failed_with, answered, answer_error}
use sricd.Libsric.Transfer.{of_context, byte_of}
use sricd.Libsric.Notes.{sric_note_set_flags, flags_command, flag_bytes}
use sricd.Libsric.Retry.{check_address-device, change_flags-changed}
use sricd.Protocol.Stream.{request, sent_to, sent_to-write, connected, send_command-connected}

-- The flags as the context has them afterwards.
abbrev pub remembered : ℕ → ℕ → Context → Context
remembered device flags ctx = record ctx {
  noteflags = update ctx.noteflags device flags;
  error = error_none;
}

-- The ten bytes of the request are read as the device and the flags.
network_order-flag_bytes : (flags : ℕ) → flags < 2 ^ 64 → network_order 0 (flag_bytes flags) ≡ flags
unfolding network_order
network_order-flag_bytes flags h = omega arith

network_order-device :
    (device : ℕ)
    → device < 128
    → network_order 0 (byte_of (pos device) 256 ∷ byte_of (pos device) 1 ∷ []) ≡ device
unfolding network_order
network_order-device device h = omega arith

sric_note_set_flags-connected :
    (device flags answer : ℕ) (rest written : List ℕ) (ctx : Context)
    → 2 ≤ device
    → device < 128
    → ctx.noteflags device ≢ flags
    → sric_note_set_flags (some (connected (answer ∷ rest) written ctx)) (pos device) flags
      ≡ of_context (
          answered (answer_error answer) (
            connected rest
              (written ++ flags_command (pos device) flags)
              (remembered device flags ctx)))
unfolding sric_note_set_flags
sric_note_set_flags-connected device flags answer rest written ctx low high changed =
    let start = failed_with error_none (connected (answer ∷ rest) written ctx) in
    rw (check_address-device device start low high, change_flags-changed device flags start changed)
      (ap of_context (
        send_command-connected (flags_command (pos device) flags) rest written answer
          (remembered device flags ctx)))

module _ ⦃env : Platform⦄ where
  register_flags-exists :
      (fd c device flags : ℕ) (w : World)
      → device < 128
      → device_exists device w ≡ true
      → register_flags fd c device flags w
        ≡ (device_set_client_notes device c flags w >>= λ w'. ok (write_result fd 0 w'))
  unfolding register_flags
  register_flags-exists fd c device flags w high exists = ground arith

  flags_request :
      (fd c device flags : ℕ) (w : World)
      → device < 128
      → flags < 2 ^ 64
      → ipc_client_incoming fd c (request (1 ∷ 2 ∷ 8 ∷ []) (flags_command (pos device) flags)) w
        ≡ (register_flags fd c device flags w >>= λ w'. ok (w', true))
  unfolding ipc_client_incoming handle_command handle_note_flags flags_command
  flags_request fd c device flags w high fits =
      ap (λ d. register_flags fd c d (network_order 0 (flag_bytes flags)) w >>= λ w'. ok (w', true))
        (network_order-device device high)
      ∙ ap (λ fl. register_flags fd c device fl w >>= λ w'. ok (w', true))
          (network_order-flag_bytes flags fits)

  result_sent :
      (fd result : ℕ) (w : World)
      → sent_to fd (write_result fd result w).calls ≡ sent_to fd w.calls ++ result ∷ []
  unfolding write_result
  result_sent fd result w = sent_to-write fd (result ∷ []) w.calls

  -- A program sets the flags of a device, other than those it set last, and nothing on the
  -- connection is cut short; the device exists, the client is allocated, and each client stands
  -- once at most in the list of the device. The daemon, reading the bytes that were written,
  -- registers the client under exactly the 64 bits that were given, every other client keeping its
  -- own, and answers 0; the program's call returns 0 with no error set, and remembers the flags.
  pub sric_note_set_flags-ipc_client_incoming :
      (fd c device flags : ℕ) (x : Client) (rest written : List ℕ) (ctx : Context) (w : World)
      → 2 ≤ device
      → device < 128
      → flags < 2 ^ 64
      → ctx.noteflags device ≢ flags
      → device_exists device w ≡ true
      → w.clients c ≡ some x
      → OnceEach (w.targets device)
      → (w' : World) × (ipc_client_incoming fd c
            (request (1 ∷ 2 ∷ 8 ∷ []) (flags_command (pos device) flags))
            w
          ≡ ok (w', true))
        × Registers c flags (w.targets device) (w'.targets device)
        × (sent_to fd w'.calls ≡ sent_to fd w.calls ++ 0 ∷ [])
        × (sric_note_set_flags (some (connected (0 ∷ rest) written ctx)) (pos device) flags ≡ (
          some (
              connected rest
                (written ++ flags_command (pos device) flags)
                (remembered device flags ctx)),
          false,
        ))
  unfolding write_result
  sric_note_set_flags-ipc_client_incoming fd c device flags x rest written ctx w low high fits
        changed exists live once =
      let (v, sets, registers, elsewhere, marked, others, only) =
        device_set_client_notes_lem device c flags x w live once in
      (
        write_result fd 0 v,
        flags_request fd c device flags w high fits
            ∙ rw (register_flags-exists fd c device flags w high exists, sets) refl,
        registers,
        result_sent fd 0 v ∙ ap (λ calls. sent_to fd calls ++ 0 ∷ []) only.calls,
        sric_note_set_flags-connected device flags 0 rest written ctx low high changed,
      )
