-- ===== src/Ipc/Polling.antt =====
-- sricd/ipc.c: a client that polls, the frame that it polls for, and the timer.
use sricd.Base.{
  ℕ, ◌<◌, ◌≡◌, ◌∙◌, sym, ap, refl, true, false, List, [], ◌∷◌, none, some, arith, ◌==◌, ==_refl,
  if◌then◌else◌, length,
}
use sricd.World.{
  World, Platform, Client, Frame, owner, Effect, client_write, ok, ◌>>=◌, next_source_id,
}
use sricd.Client.{client_push_rx, client_pop_rx, put_client, send_rx, response_header, pop_tail}
use sricd.Client.Waiting.{
  WaitsOnEmpty, client_push_rx_lem, after_push_rx, calls_of_push_rx, get_client-live, one_more,
}
use sricd.Ipc.{Input, forever, network_order, handle_poll_rx, rx_answer, wait_for_rx}

-- What was written to clients, the last first: to whom, and what.
abbrev pub client_writes : List Effect → List (ℕ × List ℕ)
client_writes [] = []
client_writes (client_write fd bytes ∷ calls) = (fd, bytes) ∷ client_writes calls
client_writes (_ ∷ calls) = client_writes calls

-- A client that does not wait, and whose queue is empty.
pub record AtRest (x : Client) : Type 0 where
  pub rx_q : x.rx_q ≡ []
  pub rx_ping_set : x.rx_ping_set ≡ false
  pub rx_timer : x.rx_timer ≡ 0
  pub notes : x.note_ping_set ≡ true → x.note_q ≡ []

pub client_pop_rx-live :
    (c : ℕ) (x : Client) (w : World)
    → w.clients c ≡ some x
    → client_pop_rx c w
      ≡ ok ((pop_tail x.rx_q).0, put_client c (record x { rx_q = (pop_tail x.rx_q).1 }) w)
unfolding client_pop_rx
client_pop_rx-live c x w live = rw (get_client-live c x w live) refl

abbrev pub frame_writes : Client → Frame → List (ℕ × List ℕ) → List (ℕ × List ℕ)
frame_writes x f writes = (x.fd, f.payload) ∷ (x.fd, response_header f) ∷ writes

module _ ⦃env : Platform⦄ where
  abbrev waiting_client : ℕ → Client → World → Client
  waiting_client timeout x w =
      if timeout == forever
      then record x { rx_ping_set = true }
      else record x { rx_timer = next_source_id w; rx_ping_set = true }

  wait_for_rx_lem :
      (timeout c : ℕ) (x : Client) (w : World)
      → let v = wait_for_rx timeout c x w in
        (v.clients c ≡ some (waiting_client timeout x w))
        × (client_writes v.calls ≡ client_writes w.calls)
  unfolding wait_for_rx
  wait_for_rx_lem timeout c x w = (ground (arith, ==_refl c), ground (arith, ==_refl c))

  waiting_client_lem :
      (timeout : ℕ) (x : Client) (w : World)
      → AtRest x
      → let y = waiting_client timeout (record x { rx_q = [] }) w in
        (y.rx_ping_set ≡ true)
        × (y.fd ≡ x.fd)
        × (record y { rx_ping_set = false; rx_timer = 0 } ≡ x)
  waiting_client_lem timeout x w rest = (ground arith, ground arith, ground arith)

  asked :
      (fd c timeout : ℕ) (x : Client) (w : World)
      → 0 < timeout
      → w.clients c ≡ some x
      → rx_answer fd c timeout (none, w) ≡ ok (wait_for_rx timeout c x w)
  asked fd c timeout x w some_time live = rw (get_client-live c x w live) (ground arith)

  pub poll_read :
      (fd c : ℕ) (input : Input) (bytes : List ℕ) (w : World)
      → input.reads 1 ≡ some bytes
      → length bytes ≡ 4
      → handle_poll_rx fd c input w ≡ (client_pop_rx c w >>= rx_answer fd c (network_order 0 bytes))
  unfolding handle_poll_rx
  poll_read fd c input bytes w read four = ground arith

  -- A poll on an empty queue leaves the client waiting.
  poll_waits :
      (c : ℕ) (x : Client) (input : Input) (bytes : List ℕ) (w : World)
      → w.clients c ≡ some x
      → AtRest x
      → input.reads 1 ≡ some bytes
      → length bytes ≡ 4
      → 0 < network_order 0 bytes
      → (y : Client) × (v : World) × (handle_poll_rx x.fd c input w ≡ ok v)
        × (v.clients c ≡ some y)
        × (y.rx_ping_set ≡ true)
        × (record y { rx_ping_set = false; rx_timer = 0 } ≡ x)
        × (client_writes v.calls ≡ client_writes w.calls)
  poll_waits c x input bytes w live rest read four some_time =
      let y = record x { rx_q = [] } in
      let v = put_client c y w in
      let timeout = network_order 0 bytes in
      let waiting = wait_for_rx_lem timeout c y v in
      let left = waiting_client_lem timeout x v rest in
      (
        waiting_client timeout y v,
        wait_for_rx timeout c y v,
        rw (poll_read x.fd c input bytes w read four, client_pop_rx-live c x w live, rest.rx_q)
            (asked x.fd c timeout y v some_time (rw (==_refl c) refl)),
        waiting.0,
        left.0,
        left.2,
        waiting.1,
      )

  -- A poll on a queue of one frame sends it.
  poll_sends :
      (c : ℕ) (x : Client) (f : Frame) (fd : ℕ) (input : Input) (bytes : List ℕ) (w : World)
      → w.clients c ≡ some x
      → x.rx_q ≡ f ∷ []
      → input.reads 1 ≡ some bytes
      → length bytes ≡ 4
      → handle_poll_rx fd c input w ≡ ok (send_rx fd f (put_client c (record x { rx_q = [] }) w))
  poll_sends c x f fd input bytes w live one read four =
      rw (poll_read fd c input bytes w read four, client_pop_rx-live c x w live, one) refl

pub writes_to_waiting :
    (y : Client) (f : Frame) (calls : List Effect)
    → y.rx_ping_set ≡ true
    → client_writes (calls_of_push_rx y f calls) ≡ frame_writes y f (client_writes calls)
writes_to_waiting y f calls waiting = ground arith

woken_client :
    (y : Client) (f : Frame)
    → y.rx_ping_set ≡ true
    → after_push_rx y f ≡ record y { rx_ping_set = false; rx_timer = 0 }
woken_client y f waiting = ground arith

AtRest-WaitsOnEmpty :
    (x y : Client) → AtRest x → record y { rx_ping_set = false; rx_timer = 0 } ≡ x → WaitsOnEmpty y
AtRest-WaitsOnEmpty x y rest same = record {
  rx = λ _. ap (λ (z : Client). z.rx_q) same ∙ rest.rx_q;
  note = λ e.
      ap (λ (z : Client). z.note_q) same
      ∙ rest.notes (ap (λ (z : Client). z.note_ping_set) (sym same) ∙ e);
}

same_writes :
    (x y : Client) (f : Frame) (writes : List (ℕ × List ℕ))
    → y.fd ≡ x.fd
    → frame_writes y f writes ≡ frame_writes x f writes
same_writes x y f writes e = rw e refl

AtRest-same : (x : Client) → AtRest x → record x { rx_timer = 0; rx_ping_set = false } ≡ x
AtRest-same x rest = ground arith

-- A client at rest, with one frame more.
pushed-AtRest :
    (x : Client) (f : Frame)
    → AtRest x
    → ((after_push_rx x f).rx_q ≡ f ∷ []) × (record (after_push_rx x f) { rx_q = [] } ≡ x)
pushed-AtRest x f rest = (ground (arith, one_more x.rx_q f), ground arith)

calls-AtRest :
    (x : Client) (f : Frame) (calls : List Effect) → AtRest x → calls_of_push_rx x f calls ≡ calls
calls-AtRest x f calls rest = ground arith

module _ ⦃env : Platform⦄ where
  poll_then_frame :
      (c : ℕ) (x : Client) (f : Frame) (input : Input) (bytes : List ℕ) (w : World)
      → w.clients c ≡ some x
      → AtRest x
      → input.reads 1 ≡ some bytes
      → length bytes ≡ 4
      → 0 < network_order 0 bytes
      → (v : World) × ((handle_poll_rx x.fd c input w >>= client_push_rx (owner c) f) ≡ ok v)
        × (v.clients c ≡ some x)
        × (client_writes v.calls ≡ frame_writes x f (client_writes w.calls))
  poll_then_frame c x f input bytes w live rest read four some_time =
      let (y, u, polls, holds, waits, same, quiet) =
        poll_waits c x input bytes w live rest read four some_time in
      let (v, pushes, then_holds, calls, still, others) =
        client_push_rx_lem c y f u holds (AtRest-WaitsOnEmpty x y rest same) in
      (
        v,
        rw polls pushes,
        then_holds ∙ ap some (woken_client y f waits ∙ same),
        ap client_writes calls
            ∙ writes_to_waiting y f u.calls waits
            ∙ same_writes x y f (client_writes u.calls) (ap (λ (z : Client). z.fd) same)
            ∙ ap (frame_writes x f) quiet,
      )

  frame_then_poll :
      (c : ℕ) (x : Client) (f : Frame) (input : Input) (bytes : List ℕ) (w : World)
      → w.clients c ≡ some x
      → AtRest x
      → input.reads 1 ≡ some bytes
      → length bytes ≡ 4
      → (v : World) × ((client_push_rx (owner c) f w >>= handle_poll_rx x.fd c input) ≡ ok v)
        × (v.clients c ≡ some x)
        × (client_writes v.calls ≡ frame_writes x f (client_writes w.calls))
  unfolding send_rx
  frame_then_poll c x f input bytes w live rest read four =
      let waits = AtRest-WaitsOnEmpty x x rest (AtRest-same x rest) in
      let (u, pushes, holds, calls, still, others) = client_push_rx_lem c x f w live waits in
      let y = after_push_rx x f in
      let after = pushed-AtRest x f rest in
      (
        send_rx x.fd f (put_client c (record y { rx_q = [] }) u),
        rw pushes (poll_sends c y f x.fd input bytes u holds after.0 read four),
        rw (==_refl c) (ap some after.1),
        ap (λ calls. frame_writes x f (client_writes calls))
            (calls ∙ calls-AtRest x f w.calls rest),
      )

  -- It makes no difference to a client whether the frame arrives before it polls for it, or while
  -- it waits. Let a client be allocated and at rest, with an empty queue, and poll with a timeout
  -- other than 0 that is read in full. Whether a frame is pushed after the poll or before it, both
  -- calls return; the client is sent the header and then the payload of the frame, and nothing
  -- else; and it is left as it was.
  pub handle_poll_rx-client_push_rx :
      (c : ℕ) (x : Client) (f : Frame) (input : Input) (bytes : List ℕ) (w : World)
      → w.clients c ≡ some x
      → AtRest x
      → input.reads 1 ≡ some bytes
      → length bytes ≡ 4
      → 0 < network_order 0 bytes
      → (u v : World) × ((handle_poll_rx x.fd c input w >>= client_push_rx (owner c) f) ≡ ok u)
        × ((client_push_rx (owner c) f w >>= handle_poll_rx x.fd c input) ≡ ok v)
        × (u.clients c ≡ some x)
        × (v.clients c ≡ some x)
        × (client_writes u.calls
            ≡ (x.fd, f.payload) ∷ (x.fd, response_header f) ∷ client_writes w.calls)
        × (client_writes v.calls ≡ client_writes u.calls)
  handle_poll_rx-client_push_rx c x f input bytes w live rest read four some_time =
      let (u, first, one, sent) =
        poll_then_frame c x f input bytes w live rest read four some_time in
      let (v, second, other, also) = frame_then_poll c x f input bytes w live rest read four in
      (u, v, first, second, one, other, sent, also ∙ sym sent)
