-- ===== src/Client/Noting.antt =====
-- sricd/client.c and sricd/ipc.c: a note that arrives meets a client that waits for one, or not.
use sricd.Base.{
  List, ◌==◌, ℕ, ◌≡◌, ◌≢◌, ◌∙◌, ap, refl, true, false, [], ◌∷◌, ◌++◌, some, arith, ==_refl,
  if◌then◌else◌, Bool-cases, inl, inr,
}
use sricd.World.{Effect, client_write, source_remove, World, Client, Frame, ok}
use sricd.Client.{
  response_header, put_client, client_push_note, note_ping, client_pop_note, send_rx, remove_timer,
}
use sricd.Client.Waiting.{
  WaitsOnEmpty, get_client-put_client, get_client-live, one_more, ping_if_set, ping_if_clear,
}

-- The client after a note has arrived for it.
abbrev pub after_push_note : Client → Frame → Client
after_push_note x f =
    if x.note_ping_set
    then record x { note_timer = 0; note_ping_set = false }
    else record x { note_q = x.note_q ++ f ∷ [] }

-- What is sent meanwhile, the last first: the header and the payload, behind the removal of the
-- timer if one is set.
abbrev pub calls_of_push_note : Client → Frame → List Effect → List Effect
calls_of_push_note x f calls =
    if x.note_ping_set
    then client_write x.fd f.payload
      ∷ client_write x.fd (response_header f)
      ∷ (if x.note_timer == 0 then calls else source_remove x.note_timer ∷ calls)
    else calls

called :
    (x : Client) (f : Frame) (v : World)
    → x.note_ping_set ≡ true
    → ◌≡◌ {A = List Effect}
        (client_write x.fd f.payload
          ∷ client_write x.fd (response_header f)
          ∷ (remove_timer x.note_timer v).calls)
        (calls_of_push_note x f v.calls)
called x f v waiting = ground arith

note_ping-one :
    (c : ℕ) (x : Client) (f : Frame) (v : World)
    → x.note_q ≡ f ∷ []
    → note_ping c (put_client c x v)
      ≡ ok (
          send_rx x.fd f (
            put_client c
              (record x { note_timer = 0; note_ping_set = false; note_q = [] })
              (put_client c
                (record x { note_timer = 0; note_ping_set = false })
                (remove_timer x.note_timer (put_client c x v)))))
unfolding note_ping client_pop_note
note_ping-one c x f v one =
    let waiting = put_client c x v in
    let woken = record x { note_timer = 0; note_ping_set = false } in
    rw
      (
        get_client-put_client c x v,
        get_client-put_client c woken (remove_timer x.note_timer waiting),
        one,
      )
      refl

woken :
    (x : Client) (f : Frame)
    → x.note_ping_set ≡ true
    → x.note_q ≡ []
    → record x { note_timer = 0; note_ping_set = false; note_q = [] } ≡ after_push_note x f
woken x f waiting empty = ground arith

pub client_push_note_lem :
    (c : ℕ) (x : Client) (f : Frame) (w : World)
    → w.clients c ≡ some x
    → WaitsOnEmpty x
    → (w' : World) × (client_push_note c f w ≡ ok w')
      × (w'.clients c ≡ some (after_push_note x f))
      × (w'.calls ≡ calls_of_push_note x f w.calls)
      × ((d : ℕ) → d ≢ c → w'.clients d ≡ w.clients d)
unfolding client_push_note send_rx
client_push_note_lem c x f w live waits =
    rw (get_client-live c x w live) (elim (Bool-cases x.note_ping_set) [
      | inl waiting ↦
          let y : Client = record x { note_q = x.note_q ++ f ∷ [] } in
          let ready = put_client c y w in
          (
            _,
            ping_if_set x.note_ping_set (note_ping c) ready waiting
                ∙ note_ping-one c y f w (one_more x.note_q f (waits.note waiting)),
            rw (==_refl c) (ap some (woken x f waiting (waits.note waiting))),
            called x f ready waiting,
            λ d ne. ground arith,
          )
      | inr busy ↦ (
        put_client c (record x { note_q = x.note_q ++ f ∷ [] }) w,
        ping_if_clear x.note_ping_set (note_ping c) _ busy,
        ground arith,
        ground arith,
        λ d ne. ground arith,
      )
    ])
