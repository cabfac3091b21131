-- ===== src/Libsric/Devices.antt =====
-- libsric/sric.c: the list of devices.
use sricd.Base.{
  ℕ, zero, suc, ◌+◌, if◌then◌else◌, Bool, true, false, List, [], ◌∷◌, Option, none, some, length,
  ltb, get_or,
}
use sricd.Base.Int.{ℤ, pos, negsuc, short, is_minus_one}
use sricd.World.{Outcome, ok, fault}
use sricd.Ipc.{sricd_list_devices}
use sricd.Libsric.Core.{Context, SricDevice, send_command, read_data}
use sricd.Libsric.Transfer.{ntohs}

-- The last entry of the array.
abbrev pub sentinel : SricDevice
sentinel = record { address = pos 0; kind = negsuc 0 }

-- A `read_data` into `data`: the value, unless it failed.
abbrev pub data_read : Context × List ℕ × Bool → Context × Option ℤ
data_read (ctx, bytes, true) = (ctx, none)
data_read (ctx, bytes, false) = (ctx, some (short (ntohs bytes)))

abbrev pub with_kind : ℤ → Context × Option ℤ → Context × Option SricDevice
with_kind address (ctx, none) = (ctx, none)
with_kind address (ctx, some kind) = (ctx, some (record { address = address; kind = kind }))

abbrev pub with_address : Context × Option ℤ → Context × Option SricDevice
with_address (ctx, none) = (ctx, none)
with_address (ctx, some address) = with_kind address (data_read (read_data 2 ctx))

-- The body of the loop.
unfoldable pub read_device : Context → Context × Option SricDevice
unfolding read_data
read_device ctx = with_address (data_read (read_data 2 ctx))

abbrev pub extended :
    SricDevice → Context × Option (List SricDevice) → Context × Option (List SricDevice)
extended d (ctx, none) = (ctx, none)
extended d (ctx, some ds) = (ctx, some (d ∷ ds))

abbrev pub and_more :
    Context × Option SricDevice
    → (Context → Context × Option (List SricDevice))
    → Context × Option (List SricDevice)
and_more (ctx, none) more = (ctx, none)
and_more (ctx, some d) more = extended d (more ctx)

-- The loop, with `left` rounds left, and the sentinel; `none` if a read failed.
unfoldable pub read_devices : ℕ → Context → Context × Option (List SricDevice)
unfolding read_device
read_devices zero ctx = (ctx, some (sentinel ∷ []))
read_devices (suc left) ctx = and_more (read_device ctx) (read_devices left)

abbrev pub store_devices : Context × Option (List SricDevice) → Context
store_devices (ctx, ds) = record ctx { devices = ds }

abbrev after_count : Context × List ℕ × Bool → Context
after_count (ctx, bytes, true) = ctx
after_count (ctx, bytes, false) = store_devices (read_devices (ntohs bytes) ctx)

abbrev after_request : Context × Bool → Context
after_request (ctx, true) = ctx
after_request (ctx, false) = after_count (read_data 2 ctx)

unfoldable pub sric_refresh_devices : Context → Context
unfolding send_command read_data read_devices
sric_refresh_devices ctx =
    after_request (send_command (sricd_list_devices ∷ []) (record ctx { devices = none }))

-- The pointer to the first entry, if there is an array.
abbrev pub first_entry : Option (List SricDevice) → Option ℕ
first_entry none = none
first_entry (some ds) = some 0

-- The pointer to the entry behind the one at `i`, or NULL at the sentinel.
abbrev pub next_entry : Option (List SricDevice) → ℕ → Outcome (Option ℕ)
next_entry none i = fault
next_entry (some ds) i =
    if ltb (i + 1) (length ds)
    then ok (if is_minus_one (get_or ds (i + 1) sentinel).kind then none else some (i + 1))
    else fault

abbrev pub at_context : Context → Outcome (Option ℕ) → Outcome (Option Context × Option ℕ)
at_context ctx (ok p) = ok (some ctx, p)
at_context ctx _ = fault

-- A pointer into the array is the index of the entry; `none` is NULL.
unfoldable pub sric_enumerate_devices :
    Option Context → Option ℕ → Outcome (Option Context × Option ℕ)
unfolding sric_refresh_devices
sric_enumerate_devices none device = ok (none, none)
sric_enumerate_devices (some ctx) none =
    let refreshed = sric_refresh_devices ctx in ok (some refreshed, first_entry refreshed.devices)
sric_enumerate_devices (some ctx) (some i) = at_context ctx (next_entry ctx.devices i)
