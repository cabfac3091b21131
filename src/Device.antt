-- ===== src/Device.antt =====
-- sricd/device.c: the devices of the bus, and who is told of their notes.
pub mod Reset
pub mod Notes
pub mod Registration
pub mod Dispatch
use Prim.Native.Nat.{bit_and, bit_or}
use sricd.Base.{
  ℕ, zero, suc, ◌+◌, ◌-◌, ◌^◌, Bool, true, not, List, [], ◌∷◌, ltb, ◌==◌, if◌then◌else◌,
}
use sricd.World.{World, Platform, Client, Target, Frame, Outcome, ok, ◌>>=◌, update, shifted_one}
use sricd.Client.{get_client, put_client, client_push_note}

-- The `char` values -1 and -2 as bit patterns.
abbrev pub no_device : ℕ
no_device = 255

abbrev pub broadcast_device : ℕ
broadcast_device = 254

abbrev pub master_device : ℕ
master_device = 0

abbrev pub device_high_address : ℕ
device_high_address = 128

module _ ⦃env : Platform⦄ where
  -- `device_types[address] != NO_DEVICE`: an unsigned `char` is never -1.
  unfoldable pub device_exists : ℕ → World → Bool
  device_exists address w =
      if env.char_is_signed then not (w.device_types address == no_device) else true

-- The byte of the `char`.
unfoldable pub device_type : ℕ → World → ℕ
device_type address w = w.device_types address

unfoldable pub device_add : ℕ → ℕ → World → World
device_add address kind w = record w { device_types = update w.device_types address kind }

unfoldable pub device_del : ℕ → World → World
device_del address w = record w { device_types = update w.device_types address no_device }

-- The loop of `device_reset`, with `left` rounds left.
unfoldable pub reset_loop : ℕ → ℕ → World → World
reset_loop zero i w = w
reset_loop (suc left) i w =
    reset_loop left (i + 1) (record w {
      targets = update w.targets i [];
      device_types = update w.device_types i no_device;
    })

unfoldable pub device_reset : World → World
unfolding reset_loop
device_reset w = reset_loop 126 2 (record w {
  device_types = update (update w.device_types 0 broadcast_device) 1 master_device;
  targets = update (update w.targets 0 []) 1 [];
})

-- The walk of `device_drop_client_notes` over the targets of one address.
unfoldable pub drop_target : ℕ → List Target → List Target
drop_target c [] = []
drop_target c (t ∷ ts) = if t.c == c then ts else t ∷ drop_target c ts

-- The walk of `device_update_client_notes`.
unfoldable pub update_target : ℕ → ℕ → List Target → List Target
update_target c notes [] = record { c = c; flags = notes } ∷ []
update_target c notes (t ∷ ts) =
    if t.c == c then record t { flags = notes } ∷ ts else t ∷ update_target c notes ts

-- The walk of `device_dispatch_note`.
unfoldable pub dispatch_loop : ℕ → Frame → List Target → World → Outcome World
unfolding client_push_note
dispatch_loop flag note [] w = ok w
dispatch_loop flag note (t ∷ ts) w = do
  w' ← (if bit_and t.flags flag == 0 then ok w else client_push_note t.c note w)
  dispatch_loop flag note ts w'

-- `*p |= mask` or `*p &= ~mask` on 64 bits.
abbrev pub mark_bit : ℕ → ℕ → ℕ → ℕ
mark_bit zero mask word = bit_and word (2 ^ 64 - 1 - mask)
mark_bit (suc notes) mask word = bit_or word mask

module _ ⦃env : Platform⦄ where
  -- What `device_set_client_notes` does to the words of the client.
  abbrev pub mark_client : ℕ → ℕ → Client → Client
  mark_client address notes x =
      if ltb 64 address
      then record x {
        device_note_data_1 = mark_bit notes (shifted_one (address - 64)) x.device_note_data_1;
      }
      else record x {
        device_note_data_0 = mark_bit notes (shifted_one address) x.device_note_data_0;
      }

  unfoldable pub device_set_client_notes : ℕ → ℕ → ℕ → World → Outcome World
  unfolding drop_target update_target
  device_set_client_notes address c notes w = do
    x ← get_client c w
    let marked = put_client c (mark_client address notes x) w
    ok (record marked {
      targets = update w.targets address (
          if notes == 0
          then drop_target c (w.targets address)
          else update_target c notes (w.targets address));
    })

  -- The loop of `device_clear_client_notes`, with `left` rounds left.
  unfoldable pub clear_loop : ℕ → ℕ → ℕ → World → Outcome World
  unfolding device_set_client_notes
  clear_loop zero i c w = ok w
  clear_loop (suc left) i c w = do
    w' ← device_set_client_notes i c 0 w
    clear_loop left (i + 1) c w'

  unfoldable pub device_clear_client_notes : ℕ → World → Outcome World
  unfolding clear_loop
  device_clear_client_notes c w = clear_loop 126 2 c w

  unfoldable pub device_dispatch_note : Frame → World → Outcome World
  unfolding dispatch_loop
  device_dispatch_note note w =
      dispatch_loop (shifted_one note.note) note (w.targets note.source_address) w
