-- ===== src/Libsric/Retry.antt =====
-- libsric/sric.c: setting the same flags twice.
use sricd.Base.{
  ℕ, ◌≤◌, ◌<◌, ◌≡◌, ◌≢◌, ◌∙◌, ap, refl, Bool, true, false, List, Option, none, some, arith, ◌==◌,
  ==_refl, same_or_not, inl, inr,
}
use sricd.Base.Int.{pos}
use sricd.World.{update}
use sricd.Libsric.Core.{
  Context, SricError, failed_with, error_none, answered, send_command, check_address, address_error,
}
use sricd.Libsric.Transfer.{of_context}
use sricd.Libsric.Notes.{sric_note_set_flags, change_flags, flags_command}

test_ne : (a b : ℕ) → a ≢ b → (a == b) ≡ false
test_ne a b h = ground arith

pub check_address-device :
    (device : ℕ) (ctx : Context)
    → 2 ≤ device
    → device < 128
    → check_address (pos device) false ctx ≡ (ctx, true)
unfolding check_address address_error
check_address-device device ctx low high = ground arith

pub change_flags-changed :
    (device flags : ℕ) (ctx : Context)
    → ctx.noteflags device ≢ flags
    → change_flags (pos device) flags ctx
      ≡ send_command
          (flags_command (pos device) flags)
          (record ctx { noteflags = update ctx.noteflags device flags })
unfolding change_flags
change_flags-changed device flags ctx changed =
    rw (test_ne (ctx.noteflags device) flags changed) refl

pub change_flags-same :
    (device flags : ℕ) (ctx : Context)
    → ctx.noteflags device ≡ flags
    → change_flags (pos device) flags ctx ≡ (ctx, false)
unfolding change_flags
change_flags-same device flags ctx same = ground arith

answered-noteflags :
    (e : Option SricError) (ctx : Context) → (answered e ctx).0.noteflags ≡ ctx.noteflags
answered-noteflags none ctx = refl
answered-noteflags (some e) ctx = refl

send_command-noteflags :
    (bytes : List ℕ) (ctx : Context) → (send_command bytes ctx).0.noteflags ≡ ctx.noteflags
unfolding send_command
send_command-noteflags bytes ctx = ground arith

-- Whatever becomes of the request, the flags are stored.
change_flags-noteflags :
    (device flags : ℕ) (ctx : Context)
    → (change_flags (pos device) flags ctx).0.noteflags device ≡ flags
unfolding change_flags
change_flags-noteflags device flags ctx = elim (same_or_not (ctx.noteflags device) flags) [
  | inl same ↦ rw (change_flags-same device flags ctx same) same
  | inr other ↦
      let sent = record ctx { noteflags = update ctx.noteflags device flags } in
      ap (λ (r : Context × Bool). r.0.noteflags device)
        (change_flags-changed device flags ctx other)
      ∙ ap (λ (f : ℕ → ℕ). f device)
          (send_command-noteflags (flags_command (pos device) flags) sent)
      ∙ rw (==_refl device) refl
]

set_flags-device :
    (device flags : ℕ) (ctx : Context)
    → 2 ≤ device
    → device < 128
    → sric_note_set_flags (some ctx) (pos device) flags
      ≡ of_context (change_flags (pos device) flags (failed_with error_none ctx))
unfolding sric_note_set_flags
set_flags-device device flags ctx low high =
    rw (check_address-device device (failed_with error_none ctx) low high) refl

-- A program sets the flags of a device from 2 to 127, and whatever became of that, also if the call
-- failed, it sets the same flags once more: the second call returns 0 with no error set and sends
-- nothing, and the flags count as set.
pub sric_note_set_flags-retry :
    (device flags : ℕ) (ctx : Context)
    → 2 ≤ device
    → device < 128
    → (ctx' : Context) × ((sric_note_set_flags (some ctx) (pos device) flags).0 ≡ some ctx')
      × (sric_note_set_flags (some ctx') (pos device) flags
          ≡ (some (failed_with error_none ctx'), false))
      × (ctx'.noteflags device ≡ flags)
sric_note_set_flags-retry device flags ctx low high =
    let start = failed_with error_none ctx in
    let ctx' = (change_flags (pos device) flags start).0 in
    let stored = change_flags-noteflags device flags start in
    (
      ctx',
      ap (λ (r : Option Context × Bool). r.0) (set_flags-device device flags ctx low high),
      set_flags-device device flags ctx' low high
          ∙ ap of_context (change_flags-same device flags (failed_with error_none ctx') stored),
      stored,
    )
