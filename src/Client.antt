-- ===== src/Client.antt =====
-- sricd/client.c: the queues of a client, and what of sricd/ipc.c runs when a frame arrives for a
-- client that waits for one.
pub mod Destroy
pub mod Delivery
pub mod Waiting
pub mod Noting
pub mod Release
use sricd.Base.{
  ℕ, ◌/◌, ◌%◌, Bool, true, false, List, [], ◌∷◌, ◌++◌, Option, none, some, ◌==◌, if◌then◌else◌,
  length,
}
use sricd.World.{
  World, Client, Frame, Tag, owner, null, bad_enum_tag, Outcome, ok, aborted, fault, ◌>>=◌, update,
  call, client_write, source_remove,
}

-- A read of the client at `c`.
abbrev pub get_client : ℕ → World → Outcome Client
get_client c w = elim (w.clients c) [ none ↦ fault | some x ↦ ok x ]

-- A write to the client at `c`.
abbrev pub put_client : ℕ → Client → World → World
put_client c x w = record w { clients = update w.clients c (some x) }

-- `c` is the address that `malloc` returns.
unfoldable pub client_create : ℕ → ℕ → World → World
client_create c fd w =
    put_client c
      (record {
        note_q = [];
        rx_q = [];
        fd = fd;
        rx_timer = 0;
        note_timer = 0;
        rx_ping_set = false;
        note_ping_set = false;
        device_note_data_0 = 0;
        device_note_data_1 = 0;
      })
      w

-- `g_queue_pop_tail` of a client's queue.
abbrev pub pop_tail : List Frame → Option Frame × List Frame
pop_tail [] = (none, [])
pop_tail (f ∷ fs) = (some f, fs)

unfoldable pub client_pop_rx : ℕ → World → Outcome (Option Frame × World)
client_pop_rx c w = do
  x ← get_client c w
  let popped = pop_tail x.rx_q
  ok (popped.0, put_client c (record x { rx_q = popped.1 }) w)

unfoldable pub client_pop_note : ℕ → World → Outcome (Option Frame × World)
client_pop_note c w = do
  x ← get_client c w
  let popped = pop_tail x.note_q
  ok (popped.0, put_client c (record x { note_q = popped.1 }) w)

-- The seven bytes that precede the payload; `note` and `payload_length` are bytes.
unfoldable pub response_header : Frame → List ℕ
response_header rx =
    0 ∷ 0 ∷ rx.source_address ∷ rx.note / 256 ∷ rx.note % 256 ∷ 0 ∷ length rx.payload ∷ []

unfoldable pub send_rx : ℕ → Frame → World → World
unfolding response_header
send_rx fd rx w = call (client_write fd rx.payload) (call (client_write fd (response_header rx)) w)

-- `g_source_remove` of a timer that is set.
abbrev pub remove_timer : ℕ → World → World
remove_timer timer w = if timer == 0 then w else call (source_remove timer) w

-- `assert(rx)`, and the end of `rx_ping` and `note_ping`.
abbrev send_popped : ℕ → Option Frame × World → Outcome World
send_popped fd (none, w) = aborted
send_popped fd (some f, w) = ok (send_rx fd f w)

unfoldable pub rx_ping : ℕ → World → Outcome World
unfolding client_pop_rx send_rx
rx_ping c w = do
  x ← get_client c w
  popped ←
      client_pop_rx c
        (put_client c (record x { rx_timer = 0; rx_ping_set = false }) (remove_timer x.rx_timer w))
  send_popped x.fd popped

unfoldable pub note_ping : ℕ → World → Outcome World
unfolding client_pop_note send_rx
note_ping c w = do
  x ← get_client c w
  popped ← client_pop_note c (
      put_client c (record x { note_timer = 0; note_ping_set = false })
        (remove_timer x.note_timer w))
  send_popped x.fd popped

-- The callback, if it is not NULL.
abbrev ping_if : Bool → (World → Outcome World) → World → Outcome World
ping_if true ping w = ping w
ping_if false ping w = ok w

-- The client is given by a tag: NULL fails the assertion, and `BAD_ENUM_TAG` is no address.
unfoldable pub client_push_rx : Tag → Frame → World → Outcome World
unfolding rx_ping
client_push_rx null rx w = aborted
client_push_rx bad_enum_tag rx w = fault
client_push_rx (owner c) rx w = do
  x ← get_client c w
  ping_if x.rx_ping_set (rx_ping c) (put_client c (record x { rx_q = x.rx_q ++ rx ∷ [] }) w)

unfoldable pub client_push_note : ℕ → Frame → World → Outcome World
unfolding note_ping
client_push_note c note w = do
  x ← get_client c w
  ping_if x.note_ping_set (note_ping c)
      (put_client c (record x { note_q = x.note_q ++ note ∷ [] }) w)
