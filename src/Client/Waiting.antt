-- ===== src/Client/Waiting.antt =====
-- sricd/client.c and sricd/ipc.c: a frame that arrives meets a client that waits for one, or not.
use sricd.Base.{
  ℕ, ◌≡◌, ◌≢◌, ◌∙◌, ap, refl, Bool, true, false, List, [], ◌∷◌, ◌++◌, some, arith, ◌==◌, ==_refl,
  if◌then◌else◌, Bool-cases, inl, inr,
}
use sricd.World.{World, Client, Frame, owner, Effect, client_write, source_remove, Outcome, ok}
use sricd.Client.{
  get_client, put_client, client_push_rx, rx_ping, client_pop_rx, send_rx, response_header,
  remove_timer, ping_if,
}

-- A client waits only while its queue is empty.
pub record WaitsOnEmpty (x : Client) : Type 0 where
  pub rx : x.rx_ping_set ≡ true → x.rx_q ≡ []
  pub note : x.note_ping_set ≡ true → x.note_q ≡ []

-- The client and the calls after a frame has arrived for its queue of acknowledgements.
abbrev pub after_push_rx : Client → Frame → Client
after_push_rx x f =
    if x.rx_ping_set
    then record x { rx_timer = 0; rx_ping_set = false }
    else record x { rx_q = x.rx_q ++ f ∷ [] }

abbrev pub calls_of_push_rx : Client → Frame → List Effect → List Effect
calls_of_push_rx x f calls =
    if x.rx_ping_set
    then client_write x.fd f.payload
      ∷ client_write x.fd (response_header f)
      ∷ (if x.rx_timer == 0 then calls else source_remove x.rx_timer ∷ calls)
    else calls

-- A read of the client that was put there.
pub get_client-put_client :
    (c : ℕ) (x : Client) (w : World) → get_client c (put_client c x w) ≡ ok x
get_client-put_client c x w = rw (==_refl c, get_client) refl

pub get_client-live :
    (c : ℕ) (x : Client) (w : World) → w.clients c ≡ some x → get_client c w ≡ ok x
get_client-live c x w live = rw (live, get_client) refl

-- `rx_ping` on a queue of one frame.
rx_ping-one :
    (c : ℕ) (x : Client) (f : Frame) (v : World)
    → x.rx_q ≡ f ∷ []
    → rx_ping c (put_client c x v)
      ≡ ok (
          send_rx x.fd f (
            put_client c
              (record x { rx_timer = 0; rx_ping_set = false; rx_q = [] })
              (put_client c
                (record x { rx_timer = 0; rx_ping_set = false })
                (remove_timer x.rx_timer (put_client c x v)))))
unfolding rx_ping client_pop_rx
rx_ping-one c x f v one =
    let waiting = put_client c x v in
    let woken = record x { rx_timer = 0; rx_ping_set = false } in
    rw
      (
        get_client-put_client c x v,
        get_client-put_client c woken (remove_timer x.rx_timer waiting),
        one,
      )
      refl

pub ping_if_set :
    (b : Bool) (ping : World → Outcome World) (w : World) → b ≡ true → ping_if b ping w ≡ ping w
ping_if_set true ping w h = refl
ping_if_set false ping w h = cc

pub ping_if_clear :
    (b : Bool) (ping : World → Outcome World) (w : World) → b ≡ false → ping_if b ping w ≡ ok w
ping_if_clear true ping w h = cc
ping_if_clear false ping w h = refl

pub one_more : (q : List Frame) (f : Frame) → q ≡ [] → q ++ f ∷ [] ≡ f ∷ []
one_more q f e = rw e refl

-- What a waiting client is left with, and the calls of `rx_ping`.
rx_ping-effects :
    (c : ℕ) (x : Client) (f : Frame) (v : World)
    → let w' = send_rx x.fd f (
        put_client c
          (record x { rx_timer = 0; rx_ping_set = false; rx_q = [] })
          (put_client c
            (record x { rx_timer = 0; rx_ping_set = false })
            (remove_timer x.rx_timer (put_client c x v)))) in
      (w'.clients c ≡ some (record x { rx_timer = 0; rx_ping_set = false; rx_q = [] }))
      × (w'.calls
          ≡ client_write x.fd f.payload
            ∷ client_write x.fd (response_header f)
            ∷ (if x.rx_timer == 0 then v.calls else source_remove x.rx_timer ∷ v.calls))
      × ((d : ℕ) → d ≢ c → w'.clients d ≡ v.clients d)
unfolding send_rx
rx_ping-effects c x f v = (ground arith, ground arith, λ d ne. ground arith)

after_push_rx-WaitsOnEmpty :
    (x : Client) (f : Frame) → WaitsOnEmpty x → WaitsOnEmpty (after_push_rx x f)
after_push_rx-WaitsOnEmpty x f h = record { rx = λ e. ground arith; note = λ e. ground arith }

woken :
    (x : Client) (f : Frame)
    → x.rx_ping_set ≡ true
    → x.rx_q ≡ []
    → record x { rx_timer = 0; rx_ping_set = false; rx_q = [] } ≡ after_push_rx x f
woken x f waiting empty = ground arith

called :
    (x : Client) (f : Frame) (calls : List Effect)
    → x.rx_ping_set ≡ true
    → ◌≡◌ {A = List Effect}
        (client_write x.fd f.payload
          ∷ client_write x.fd (response_header f)
          ∷ (if x.rx_timer == 0 then calls else source_remove x.rx_timer ∷ calls))
        (calls_of_push_rx x f calls)
called x f calls waiting = ground arith

-- A frame for an allocated client that waits on an empty queue only: the call returns. A client
-- that waits is sent the header and the payload of that frame, its timer is removed, and it no
-- longer waits; else nothing is sent, and the frame is the last of its queue. Either way the
-- client waits on an empty queue only, and no other client is touched.
pub client_push_rx_lem :
    (c : ℕ) (x : Client) (f : Frame) (w : World)
    → w.clients c ≡ some x
    → WaitsOnEmpty x
    → (w' : World) × (client_push_rx (owner c) f w ≡ ok w')
      × (w'.clients c ≡ some (after_push_rx x f))
      × (w'.calls ≡ calls_of_push_rx x f w.calls)
      × WaitsOnEmpty (after_push_rx x f)
      × ((d : ℕ) → d ≢ c → w'.clients d ≡ w.clients d)
unfolding client_push_rx send_rx
client_push_rx_lem c x f w live waits =
    rw (get_client-live c x w live) (elim (Bool-cases x.rx_ping_set) [
      | inl waiting ↦
          let y : Client = record x { rx_q = x.rx_q ++ f ∷ [] } in
          let ready = put_client c y w in
          let effects = rx_ping-effects c y f w in
          (
            _,
            ping_if_set x.rx_ping_set (rx_ping c) ready waiting
                ∙ rx_ping-one c y f w (one_more x.rx_q f (waits.rx waiting)),
            effects.0 ∙ ap some (woken x f waiting (waits.rx waiting)),
            effects.1 ∙ called x f w.calls waiting,
            after_push_rx-WaitsOnEmpty x f waits,
            effects.2,
          )
      | inr busy ↦ (
        put_client c (record x { rx_q = x.rx_q ++ f ∷ [] }) w,
        ping_if_clear x.rx_ping_set (rx_ping c) _ busy,
        ground arith,
        ground arith,
        after_push_rx-WaitsOnEmpty x f waits,
        λ d ne. ground arith,
      )
    ])
