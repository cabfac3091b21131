-- ===== src/Libsric/Notes.antt =====
-- libsric/sric.c and libsric/sric.h: registering for notes.
use Prim.Native.Nat.{bit_and, bit_or}
use sricd.Base.{
  ℕ, ◌-◌, ◌/◌, ◌%◌, ◌^◌, Bool, true, false, not, List, [], ◌∷◌, Option, none, some, ◌==◌,
  if◌then◌else◌,
}
use sricd.Base.Int.{ℤ}
use sricd.World.{Platform, shifted_one, update}
use sricd.Ipc.{sricd_note_flags, sricd_note_clear}
use sricd.Libsric.Core.{Context, failed_with, error_none, check_address, send_command}
use sricd.Libsric.Transfer.{byte_of, of_context, magnitude}

-- The bytes of `n` with the most significant first.
abbrev pub flag_bytes : ℕ → List ℕ
flag_bytes flags =
    flags / 2 ^ 56 % 256
    ∷ flags / 2 ^ 48 % 256
    ∷ flags / 2 ^ 40 % 256
    ∷ flags / 2 ^ 32 % 256
    ∷ flags / 2 ^ 24 % 256
    ∷ flags / 2 ^ 16 % 256
    ∷ flags / 2 ^ 8 % 256
    ∷ flags % 256
    ∷ []

unfoldable pub flags_command : ℤ → ℕ → List ℕ
flags_command device flags =
    sricd_note_flags ∷ byte_of device 256 ∷ byte_of device 1 ∷ flag_bytes flags

-- `sric_note_set_flags` once the address is checked. The flags are stored before they are sent.
unfoldable pub change_flags : ℤ → ℕ → Context → Context × Bool
unfolding flags_command send_command
change_flags device flags ctx =
    if not (ctx.noteflags (magnitude device) == flags)
    then send_command (flags_command device flags)
        (record ctx { noteflags = update ctx.noteflags (magnitude device) flags })
    else (ctx, false)

abbrev change_if : ℤ → ℕ → Context × Bool → Context × Bool
change_if device flags (ctx, true) = change_flags device flags ctx
change_if device flags (ctx, false) = (ctx, true)

-- The flag is the value returned: `true` is 1, a failure.
unfoldable pub sric_note_set_flags : Option Context → ℤ → ℕ → Option Context × Bool
unfolding check_address change_flags
sric_note_set_flags none device flags = (none, true)
sric_note_set_flags (some ctx) device flags =
    of_context (change_if device flags (check_address device false (failed_with error_none ctx)))

abbrev flags_if : ℤ → Context × Bool → Option Context × ℕ
flags_if device (ctx, true) = (some ctx, ctx.noteflags (magnitude device))
flags_if device (ctx, false) = (some ctx, 0)

unfoldable pub sric_note_get_flags : Option Context → ℤ → Option Context × ℕ
unfolding check_address
sric_note_get_flags none device = (none, 0)
sric_note_get_flags (some ctx) device =
    flags_if device (check_address device false (failed_with error_none ctx))

unfoldable pub sric_note_unregister_all : Option Context → Option Context × Bool
unfolding send_command
sric_note_unregister_all none = (none, true)
sric_note_unregister_all (some ctx) =
    of_context
      (send_command (sricd_note_clear ∷ []) (record ctx { noteflags = λ _. 0; error = error_none }))

-- `f(ctx, device, change(sric_note_get_flags(ctx, device)))`.
abbrev set_changed : (ℕ → ℕ) → ℤ → Option Context × ℕ → Option Context × Bool
set_changed change device (ctx, flags) = sric_note_set_flags ctx device (change flags)

module _ ⦃env : Platform⦄ where
  unfoldable pub sric_note_register : Option Context → ℤ → ℕ → Option Context × Bool
  unfolding sric_note_set_flags sric_note_get_flags
  sric_note_register ctx device note =
      set_changed (λ flags. bit_or flags (shifted_one note)) device (sric_note_get_flags ctx device)

  unfoldable pub sric_note_unregister : Option Context → ℤ → ℕ → Option Context × Bool
  unfolding sric_note_set_flags sric_note_get_flags
  sric_note_unregister ctx device note =
      set_changed (λ flags. bit_and flags (2 ^ 64 - 1 - shifted_one note)) device
        (sric_note_get_flags ctx device)

unfoldable pub sric_note_unregister_device : Option Context → ℤ → Option Context × Bool
unfolding sric_note_set_flags
sric_note_unregister_device ctx device = sric_note_set_flags ctx device 0
