-- ===== src/Ipc.antt =====
-- sricd/ipc.c: the requests of a client, and its timers.
pub mod Requests
pub mod SetUp
pub mod Polling
pub mod Timeouts
unfoldable pub use Requests.*
use sricd.Base.{
  ℕ, zero, suc, ◌+◌, ◌-◌, ◌*◌, ◌/◌, ◌%◌, Bool, true, false, not, ◌&&◌, List, [], ◌∷◌, Option, none,
  some, ltb, leb, ◌==◌, if◌then◌else◌, length, get_or,
}
use sricd.World.{
  World, Platform, Client, Frame, TxFrame, frame_sric, owner, Outcome, ok, fault, ◌>>=◌, call,
  client_write, timeout_add, timeout_callback, note_timeout_callback, watch_client_input,
  watch_client_hangup, next_source_id,
}
use sricd.OutputQueue.{pri_1, txq_push, txq_cancel}
use sricd.Client.{get_client, put_client, client_create, client_pop_rx, client_pop_note, send_rx}
use sricd.Client.Destroy.{client_destroy}
use sricd.Device.{
  device_exists, device_type, device_set_client_notes, device_clear_client_notes,
  device_high_address,
}

-- The callback returns FALSE.
unfoldable pub timeout_callback_fired : ℕ → World → Outcome World
timeout_callback_fired c w = do
  let w1 = txq_cancel (owner c) w
  x ← get_client c w1
  ok (put_client c (record x { rx_timer = 0 }) (write_result x.fd e_timeout w1))

-- The callback returns FALSE.
unfoldable pub note_timeout_callback_fired : ℕ → World → Outcome World
note_timeout_callback_fired c w = do
  x ← get_client c w
  ok (put_client c (record x { note_timer = 0 }) (write_result x.fd e_timeout w))

-- -1, as the 32 bits of a timeout.
abbrev pub forever : ℕ
forever = 0xFFFFFFFF

module _ ⦃env : Platform⦄ where
  -- The branch of `handle_poll_rx` that waits, and the one of `handle_poll_note`.
  unfoldable pub wait_for_rx : ℕ → ℕ → Client → World → World
  wait_for_rx timeout c x w =
      if timeout == forever
      then put_client c (record x { rx_ping_set = true }) w
      else put_client c (record x { rx_timer = next_source_id w; rx_ping_set = true })
          (call (timeout_add timeout (timeout_callback c)) w)

  unfoldable pub wait_for_note : ℕ → ℕ → Client → World → World
  wait_for_note timeout c x w =
      if timeout == forever
      then put_client c (record x { note_ping_set = true }) w
      else put_client c (record x { note_timer = next_source_id w; note_ping_set = true })
          (call (timeout_add timeout (note_timeout_callback c)) w)

  abbrev pub rx_answer : ℕ → ℕ → ℕ → Option Frame × World → Outcome World
  rx_answer fd c timeout (some rx, w) = ok (send_rx fd rx w)
  rx_answer fd c timeout (none, w) = do
    x ← get_client c w
    ok (if timeout == 0 then write_result fd e_timeout w else wait_for_rx timeout c x w)

  abbrev pub note_answer : ℕ → ℕ → ℕ → Option Frame × World → Outcome World
  note_answer fd c timeout (some note, w) = ok (send_rx fd note w)
  note_answer fd c timeout (none, w) = do
    x ← get_client c w
    ok (if timeout == 0 then write_result fd e_timeout w else wait_for_note timeout c x w)

  unfoldable pub handle_poll_rx : ℕ → ℕ → Input → World → Outcome World
  handle_poll_rx fd c input w = elim (read_data (input.reads 1) 4) [
    | none ↦ ok (write_result fd e_badrequest w)
    | some bytes ↦ client_pop_rx c w >>= rx_answer fd c (network_order 0 bytes)
  ]

  unfoldable pub handle_poll_note : ℕ → ℕ → Input → World → Outcome World
  handle_poll_note fd c input w = elim (read_data (input.reads 1) 4) [
    | none ↦ ok (write_result fd e_badrequest w)
    | some bytes ↦ client_pop_note c w >>= note_answer fd c (network_order 0 bytes)
  ]

  -- `handle_note_flags` once both reads were tried.
  unfoldable pub register_flags : ℕ → ℕ → ℕ → ℕ → World → Outcome World
  register_flags fd c device flags w =
      if not (ltb device device_high_address)
      then fault
      else if not (device_exists device w)
      then ok (write_result fd e_badaddr w)
      else (device_set_client_notes device c flags w >>= λ w'. ok (write_result fd e_success w'))

  -- A failed read of the flags is answered, and the request goes on with what the variable holds.
  unfoldable pub handle_note_flags : ℕ → ℕ → Input → World → Outcome World
  handle_note_flags fd c input w = elim (read_data (input.reads 1) 2) [
    | none ↦ ok (write_result fd e_badrequest w)
    | some device ↦ elim (read_data (input.reads 2) 8) [
      | none ↦
          register_flags fd c (network_order 0 device) (input.memory 2)
            (write_result fd e_badrequest w)
      | some flags ↦ register_flags fd c (network_order 0 device) (network_order 0 flags) w
    ]
  ]

  unfoldable pub handle_note_clear : ℕ → ℕ → World → Outcome World
  handle_note_clear fd c w = do
    w' ← device_clear_client_notes c w
    ok (write_result fd e_success w')

  -- The two loops of `handle_list_devices`, with `left` rounds left.
  unfoldable pub count_devices : ℕ → ℕ → World → ℕ
  count_devices zero i w = 0
  count_devices (suc left) i w =
      let rest = count_devices left (i + 1) w in if device_exists i w then suc rest else rest

  -- `(short)device_type(i)`: the sign of a signed `char` is extended.
  abbrev pub wide_type : ℕ → World → ℕ
  wide_type i w =
      let kind = device_type i w in
      if env.char_is_signed && leb 128 kind then 0xFF00 + kind else kind

  unfoldable pub list_devices : ℕ → ℕ → ℕ → World → World
  list_devices zero i fd w = w
  list_devices (suc left) i fd w = list_devices left (i + 1) fd (
      if device_exists i w
      then call (client_write fd (htons (wide_type i w))) (call (client_write fd (htons i)) w)
      else w)

  unfoldable pub handle_list_devices : ℕ → World → World
  handle_list_devices fd w =
      let count = count_devices device_high_address 0 w in
      list_devices device_high_address 0 fd
        (call (client_write fd (htons count)) (write_result fd e_success w))

  -- The `switch` of `ipc_client_incoming`.
  unfoldable pub handle_command : ℕ → ℕ → ℕ → Input → World → Outcome World
  handle_command cmd fd c input w =
      if cmd == sricd_tx
      then handle_tx fd c input w
      else if cmd == sricd_poll_rx
      then handle_poll_rx fd c input w
      else if cmd == sricd_poll_note
      then handle_poll_note fd c input w
      else if cmd == sricd_note_flags
      then handle_note_flags fd c input w
      else if cmd == sricd_note_clear
      then handle_note_clear fd c w
      else if cmd == sricd_list_devices
      then ok (handle_list_devices fd w)
      else ok (write_result fd e_badrequest w)

  -- The flag is the value returned: whether the watch stays registered. A failed read of the
  -- command goes on with what the variable holds.
  unfoldable pub ipc_client_incoming : ℕ → ℕ → Input → World → Outcome (World × Bool)
  ipc_client_incoming fd c input w = elim (input.reads 0) [
    | none ↦ handle_command (input.memory 0) fd c input w >>= λ w'. ok (w', true)
    | some [] ↦ ok (w, false)
    | some (cmd ∷ _) ↦ handle_command cmd fd c input w >>= λ w'. ok (w', true)
  ]

  unfoldable pub ipc_client_death : ℕ → World → Outcome World
  ipc_client_death c w = client_destroy c w

-- `fd` is what `accept` returns, and `c` what `malloc` returns.
unfoldable pub ipc_new : ℕ → ℕ → World → World
ipc_new fd c w = call (watch_client_hangup c) (call (watch_client_input c) (client_create c fd w))
