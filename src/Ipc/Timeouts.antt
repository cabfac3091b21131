-- ===== src/Ipc/Timeouts.antt =====
-- sricd/ipc.c: what the timer of a poll leaves behind.
use sricd.Base.{ℕ, ◌≡◌, ◌∙◌, ap, refl, true, [], ◌∷◌, some, ==_refl}
use sricd.World.{World, Client, Frame, owner, ok, ◌>>=◌}
use sricd.OutputQueue.{txq_cancel}
use sricd.SricIf.Ready.{sric_if_cancel}
use sricd.Client.{client_push_rx, put_client, response_header}
use sricd.Client.Waiting.{WaitsOnEmpty, client_push_rx_lem, get_client-live}
use sricd.Ipc.{timeout_callback_fired, write_result, e_timeout}
use sricd.Ipc.Polling.{client_writes, writes_to_waiting}

timed_out :
    (c : ℕ) (x : Client) (w : World)
    → w.clients c ≡ some x
    → (v : World) × (timeout_callback_fired c w ≡ ok v)
      × (v.clients c ≡ some (record x { rx_timer = 0 }))
      × (client_writes v.calls ≡ (x.fd, e_timeout ∷ []) ∷ client_writes w.calls)
unfolding timeout_callback_fired txq_cancel write_result sric_if_cancel
timed_out c x w live = (
  put_client c (record x { rx_timer = 0 }) (write_result x.fd e_timeout (txq_cancel (owner c) w)),
  rw (get_client-live c x (txq_cancel (owner c) w) live) refl,
  rw (==_refl c) refl,
  refl,
)

-- A client that waits, on an empty queue, is told that its poll timed out, and it is still marked
-- as waiting: the next frame for it is sent at once, without a poll.
pub timeout_callback-client_push_rx :
    (c : ℕ) (x : Client) (f : Frame) (w : World)
    → w.clients c ≡ some x
    → WaitsOnEmpty x
    → x.rx_ping_set ≡ true
    → (w' : World) × ((timeout_callback_fired c w >>= client_push_rx (owner c) f) ≡ ok w')
      × (client_writes w'.calls
          ≡ (x.fd, f.payload)
            ∷ (x.fd, response_header f)
            ∷ (x.fd, e_timeout ∷ [])
            ∷ client_writes w.calls)
timeout_callback-client_push_rx c x f w live waits waiting =
    let y : Client = record x { rx_timer = 0 } in
    let still : WaitsOnEmpty y = record { rx = waits.rx; note = waits.note } in
    let (v, times_out, holds, writes) = timed_out c x w live in
    let (w', pushes, after, calls, unwaiting, others) = client_push_rx_lem c y f v holds still in
    (
      w',
      rw times_out pushes,
      ap client_writes calls
          ∙ writes_to_waiting y f v.calls waiting
          ∙ ap (λ sent. (x.fd, f.payload) ∷ (x.fd, response_header f) ∷ sent) writes,
    )
