-- ===== src/Protocol/Listing.antt =====
-- sricd/ipc.c: the list of devices as the daemon sends it.
use sricd.Base.{
  ℕ, zero, suc, ◌+◌, ◌-◌, ◌/◌, ◌%◌, ◌≡◌, ◌∙◌, sym, ap, refl, Bool, true, false, not, ◌&&◌, List, [],
  ◌∷◌, ◌++◌, arith, ◌==◌, leb, if◌then◌else◌, length, append_assoc, append-nil,
}
use sricd.Base.Int.{ℤ, pos, negsuc}
use sricd.World.{World, Platform, call, client_write}
use sricd.Device.{device_exists, device_type, device_high_address}
use sricd.Ipc.{
  handle_list_devices, list_devices, count_devices, wide_type, htons, write_result, e_success,
}
use sricd.Libsric.Core.{SricDevice}
use sricd.Libsric.Devices.{sentinel}
use sricd.Protocol.Stream.{sent_to, sent_to-write}

module _ ⦃env : Platform⦄ where
  -- What the table says of an address: whether there is a device, and its `char` as a number.
  abbrev pub in_table : (ℕ → ℕ) → ℕ → Bool
  in_table types i = if env.char_is_signed then not (types i == 255) else true

  abbrev pub char_value : ℕ → ℤ
  char_value t = if env.char_is_signed && leb 128 t then negsuc (255 - t) else pos t

  abbrev pub wide : ℕ → ℕ
  wide t = if env.char_is_signed && leb 128 t then 0xFF00 + t else t

  -- The addresses of the devices, from `i` on, in `left` rounds.
  unfoldable pub present : ℕ → ℕ → (ℕ → ℕ) → List ℕ
  present zero i types = []
  present (suc left) i types =
      let rest = present left (i + 1) types in if in_table types i then i ∷ rest else rest

  -- Their entries, as the daemon sends them, and as a program stores them.
  abbrev pub entries : (ℕ → ℕ) → List ℕ → List ℕ
  entries types [] = []
  entries types (i ∷ is) =
      i / 256 % 256 ∷ i % 256 ∷ wide (types i) / 256 % 256 ∷ wide (types i) % 256 ∷ entries types is

  abbrev pub devices_of : (ℕ → ℕ) → List ℕ → List SricDevice
  devices_of types [] = sentinel ∷ []
  devices_of types (i ∷ is) =
      record { address = pos i; kind = char_value (types i) } ∷ devices_of types is

  present-count :
      (left i : ℕ) (w : World) → count_devices left i w ≡ length (present left i w.device_types)
  unfolding count_devices present device_exists
  present-count zero i w = refl
  present-count (suc left) i w = ground (arith, present-count left (i + 1) w)

  sent_entry :
      (fd i : ℕ) (w : World)
      → sent_to fd
          (call
            (client_write fd (htons (wide_type i w)))
            (call (client_write fd (htons i)) w)).calls
        ≡ sent_to fd w.calls ++ entries w.device_types (i ∷ [])
  unfolding device_type
  sent_entry fd i w =
      sent_to-write fd (htons (wide_type i w)) (client_write fd (htons i) ∷ w.calls)
      ∙ ap (λ sent. sent ++ htons (wide_type i w)) (sent_to-write fd (htons i) w.calls)
      ∙ append_assoc (sent_to fd w.calls) (htons i) (htons (wide_type i w))

  if_entry :
      (b : Bool) (fd i : ℕ) (rest : List ℕ) (types : ℕ → ℕ) (list : World → World) (entry w : World)
      → sent_to fd entry.calls ≡ sent_to fd w.calls ++ entries types (i ∷ [])
      → sent_to fd (list entry).calls ≡ sent_to fd entry.calls ++ entries types rest
      → sent_to fd (list w).calls ≡ sent_to fd w.calls ++ entries types rest
      → sent_to fd (list (if b then entry else w)).calls
        ≡ sent_to fd w.calls ++ entries types (if b then i ∷ rest else rest)
  if_entry true fd i rest types list entry w one more _ =
      more
      ∙ ap (λ sent. sent ++ entries types rest) one
      ∙ append_assoc (sent_to fd w.calls) (entries types (i ∷ [])) (entries types rest)
  if_entry false fd i rest types list entry w _ _ same = same

  list_devices-sent :
      (left i fd : ℕ) (w : World)
      → sent_to fd (list_devices left i fd w).calls
        ≡ sent_to fd w.calls ++ entries w.device_types (present left i w.device_types)
  unfolding list_devices present device_exists
  list_devices-sent zero i fd w = sym (append-nil (sent_to fd w.calls))
  list_devices-sent (suc left) i fd w =
      let entry =
        call (client_write fd (htons (wide_type i w))) (call (client_write fd (htons i)) w) in
      if_entry (device_exists i w) fd i (present left (i + 1) w.device_types) w.device_types
        (list_devices left (i + 1) fd) entry w (sent_entry fd i w)
        (list_devices-sent left (i + 1) fd entry) (list_devices-sent left (i + 1) fd w)

  -- What the daemon sends for a request for the list.
  pub handle_list_devices-sent :
      (fd : ℕ) (w : World)
      → sent_to fd (handle_list_devices fd w).calls
        ≡ sent_to fd w.calls
          ++ (0 ∷ htons (length (present device_high_address 0 w.device_types))
              ++ entries w.device_types (present device_high_address 0 w.device_types))
  unfolding handle_list_devices write_result
  handle_list_devices-sent fd w =
      let types = w.device_types in
      let count = htons (length (present device_high_address 0 types)) in
      let all = entries types (present device_high_address 0 types) in
      let counted =
        call (client_write fd (htons (count_devices device_high_address 0 w)))
          (write_result fd e_success w) in
      list_devices-sent device_high_address 0 fd counted
      ∙ ap (λ sent. sent ++ all)
          (sent_to-write fd (htons (count_devices device_high_address 0 w))
              (write_result fd e_success w).calls
            ∙ ap (λ n. sent_to fd (write_result fd e_success w).calls ++ htons n)
                (present-count device_high_address 0 w)
            ∙ ap (λ sent. sent ++ count) (sent_to-write fd (e_success ∷ []) w.calls)
            ∙ append_assoc (sent_to fd w.calls) (e_success ∷ []) count)
      ∙ append_assoc (sent_to fd w.calls) (e_success ∷ count) all
