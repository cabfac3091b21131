-- ===== src/Protocol/Devices.antt =====
-- libsric/sric.c and sricd/ipc.c: the list of devices that a program gets.
use sricd.Base.{
  ℕ, zero, suc, ◌+◌, ◌-◌, ◌*◌, ◌/◌, ◌%◌, ◌≤◌, ◌<◌, ◌≡◌, ◌∙◌, sym, ap, refl, Bool, true, false, List,
  [], ◌∷◌, ◌++◌, none, some, arith, if◌then◌else◌, length, append-nil,
}
use sricd.Base.Int.{pos, negsuc, short}
use sricd.World.{World, Platform, ok}
use sricd.Device.{device_high_address}
use sricd.Ipc.{ipc_client_incoming, handle_command, handle_list_devices, htons}
use sricd.Libsric.Core.{Context, send_command, read_data}
use sricd.Libsric.Transfer.{ntohs}
use sricd.Libsric.Devices.{
  store_devices, read_device, read_devices, sric_refresh_devices, extended, and_more,
}
use sricd.Protocol.Stream.{request, sent_to, connected}
use sricd.Protocol.Listing.{
  in_table, char_value, wide, present, entries, devices_of, handle_list_devices-sent,
}

module _ ⦃env : Platform⦄ where
  -- The numbers that come back.
  short-below : (n : ℕ) → n < 0x8000 → short n ≡ pos n
  short-below n below = ground arith

  short-above : (n : ℕ) → 0x8000 ≤ n → short n ≡ negsuc (0xFFFF - n)
  short-above n above = ground arith

  joined : (n : ℕ) → n < 0x10000 → n / 256 % 256 * 256 + n % 256 ≡ n
  joined n below = omega arith

  short-address : (i : ℕ) → i < 0x8000 → short (ntohs (i / 256 % 256 ∷ i % 256 ∷ [])) ≡ pos i
  short-address i below = ap short (joined i (omega arith)) ∙ short-below i below

  short-wide : (t : ℕ) → t < 256 → short (wide t) ≡ char_value t
  short-wide t below = ground arith

  wide_below : (t : ℕ) → t < 256 → wide t < 0x10000
  wide_below t below = ground arith

  read_device-entry :
      (types : ℕ → ℕ) (i : ℕ) (rest written : List ℕ) (ctx : Context)
      → i < 0x8000
      → types i < 256
      → read_device (connected (entries types (i ∷ []) ++ rest) written ctx) ≡ (
        connected rest written ctx,
        some (record { address = pos i; kind = char_value (types i) }),
      )
  unfolding read_device read_data
  read_device-entry types i rest written ctx below char =
      rw
        (
          short-address i below,
          joined (wide (types i)) (wide_below (types i) char),
          short-wide (types i) char,
        )
        refl

  if_both :
      (P : List ℕ → Type 0) (b : Bool) (i : ℕ) (rest : List ℕ)
      → P (i ∷ rest)
      → P rest
      → P (if b then i ∷ rest else rest)
  if_both P b i rest with_it without = elim b as (λ b. P (if b then i ∷ rest else rest)) [
    | true ↦ with_it
    | false ↦ without
  ]

  -- The loop of the program reads what the loops of the daemon wrote.
  read_devices-entries :
      (left i : ℕ) (types : ℕ → ℕ) (rest written : List ℕ) (ctx : Context)
      → i + left ≤ 0x8000
      → ((j : ℕ) → types j < 256)
      → read_devices
          (length (present left i types))
          (connected (entries types (present left i types) ++ rest) written ctx)
        ≡ (connected rest written ctx, some (devices_of types (present left i types)))
  unfolding read_devices present
  read_devices-entries zero i types rest written ctx below char = refl
  read_devices-entries (suc left) i types rest written ctx below char =
      let more = read_devices-entries left (i + 1) types rest written ctx (omega arith) char in
      if_both
        (λ is.
          read_devices (length is) (connected (entries types is ++ rest) written ctx)
          ≡ (connected rest written ctx, some (devices_of types is)))
        (in_table types i) i (present left (i + 1) types)
        (ap (λ first. and_more first (read_devices (length (present left (i + 1) types))))
            (read_device-entry types i (entries types (present left (i + 1) types) ++ rest) written
              ctx (omega arith) (char i))
          ∙ ap (extended (record { address = pos i; kind = char_value (types i) })) more)
        more

  present-length : (left i : ℕ) (types : ℕ → ℕ) → length (present left i types) ≤ left
  unfolding present
  present-length zero i types = omega arith
  present-length (suc left) i types = ground (arith, present-length left (i + 1) types)

  sric_refresh_devices-connected :
      (types : ℕ → ℕ) (rest written : List ℕ) (ctx : Context)
      → ((j : ℕ) → types j < 256)
      → sric_refresh_devices (
          connected
            (0 ∷ htons (length (present device_high_address 0 types))
              ++ entries types (present device_high_address 0 types)
              ++ rest)
            written
            ctx)
        ≡ record (connected rest (written ++ (5 ∷ [])) ctx) {
          devices = some (devices_of types (present device_high_address 0 types));
        }
  unfolding sric_refresh_devices read_data send_command
  sric_refresh_devices-connected types rest written ctx char =
      let is = present device_high_address 0 types in
      let asked : Context = record ctx { devices = none } in
      ap store_devices (
        ap (λ n. read_devices n (connected (entries types is ++ rest) (written ++ (5 ∷ [])) asked))
          (joined (length is) (omega (arith, present-length device_high_address 0 types)))
        ∙ read_devices-entries device_high_address 0 types rest (written ++ (5 ∷ [])) asked
            (omega arith) char)

  -- A program asks the daemon for the list of devices over a connection that cuts nothing short,
  -- and nothing is waiting on it; each entry of the device table is a byte. The daemon answers with
  -- all of the list, and the call of the program stores exactly the devices that the table has, in
  -- the order of their addresses, each with the `char` of the table, behind them the sentinel, with
  -- the error as it was and nothing left on the connection.
  pub sric_refresh_devices-ipc_client_incoming :
      (fd c : ℕ) (written : List ℕ) (ctx : Context) (w : World)
      → ((j : ℕ) → w.device_types j < 256)
      → sent_to fd w.calls ≡ []
      → (w' : World) × (ipc_client_incoming fd c (request (1 ∷ []) (5 ∷ [])) w ≡ ok (w', true))
        × (sric_refresh_devices (connected (sent_to fd w'.calls) written ctx)
            ≡ record (connected [] (written ++ (5 ∷ [])) ctx) {
              devices =
                  some (devices_of w.device_types (present device_high_address 0 w.device_types));
            })
  unfolding ipc_client_incoming handle_command
  sric_refresh_devices-ipc_client_incoming fd c written ctx w char idle =
      let is = present device_high_address 0 w.device_types in
      let answer = 0 ∷ htons (length is) ++ entries w.device_types is in
      let sent : sent_to fd (handle_list_devices fd w).calls ≡ answer =
        handle_list_devices-sent fd w ∙ ap (λ old. old ++ answer) idle in
      (
        handle_list_devices fd w,
        refl,
        ap (λ incoming. sric_refresh_devices (connected incoming written ctx))
              (sent
                ∙ ap (λ all. 0 ∷ htons (length is) ++ all)
                    (sym (append-nil (entries w.device_types is))))
            ∙ sric_refresh_devices-connected w.device_types [] written ctx char,
      )
