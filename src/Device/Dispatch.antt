-- ===== src/Device/Dispatch.antt =====
-- sricd/device.c: a note goes to the clients that are registered for it, and to no other.
use sricd.Base.{
  ℕ, ◌≡◌, ◌≢◌, ◌∙◌, sym, ap, refl, Bool, true, false, not, List, [], ◌∷◌, Option, none, some, arith,
  ◌==◌, ==_refl, if◌then◌else◌, Bool-cases, same_or_not, inl, inr,
}
use Prim.Native.Nat.{bit_and}
use mathlib.Core.Path.{subst}
use sricd.World.{Effect, World, Platform, Client, Frame, Target, ok, shifted_one}
use sricd.Client.Waiting.{WaitsOnEmpty}
use sricd.Client.Noting.{calls_of_push_note, after_push_note, client_push_note_lem}
use sricd.Device.{dispatch_loop, device_dispatch_note}
use sricd.Device.Notes.{listed, OnceEach}

-- Whether a client is registered, in the list of an address, for one of the notes of the mask.
abbrev pub registered : ℕ → ℕ → List Target → Bool
registered flag c [] = false
registered flag c (t ∷ ts) =
    if t.c == c then not (bit_and t.flags flag == 0) else registered flag c ts

-- What a note makes of a client of the heap.
abbrev pub notified : Bool → Frame → Option Client → Option Client
notified false note x = x
notified true note none = none
notified true note (some x) = some (after_push_note x note)

-- What is sent to one client, and to those of a list who are registered for the note, in the order
-- of the list; the last first.
abbrev pub sent_note : Frame → Option Client → List Effect → List Effect
sent_note note none calls = calls
sent_note note (some x) calls = calls_of_push_note x note calls

abbrev pub sent_notes : ℕ → Frame → List Target → (ℕ → Option Client) → List Effect → List Effect
sent_notes flag note [] clients calls = calls
sent_notes flag note (t ∷ ts) clients calls =
    sent_notes flag note ts clients
      (if bit_and t.flags flag == 0 then calls else sent_note note (clients t.c) calls)

-- The clients of a list are allocated, and wait on an empty queue only.
abbrev pub CanPush : List Target → World → Type 0
CanPush ts w = (c : ℕ) → listed c ts ≡ true → (x : Client) × (w.clients c ≡ some x) × WaitsOnEmpty x

unlisted-registered :
    (flag c : ℕ) (ts : List Target) → listed c ts ≡ false → registered flag c ts ≡ false
unlisted-registered flag c [] absent = refl
unlisted-registered flag c (t ∷ ts) absent = ground (arith, unlisted-registered flag c ts)

listed_tail :
    (c : ℕ) (t : Target) (ts : List Target) → listed c ts ≡ true → listed c (t ∷ ts) ≡ true
listed_tail c t ts there = ground arith

listed_head : (t : Target) (ts : List Target) → listed t.c (t ∷ ts) ≡ true
listed_head t ts = rw (==_refl t.c) refl

tail_ready : (t : Target) (ts : List Target) (w : World) → CanPush (t ∷ ts) w → CanPush ts w
tail_ready t ts w ready = λ c there. ready c (listed_tail c t ts there)

head_ready :
    (t : Target) (ts : List Target) (w : World)
    → CanPush (t ∷ ts) w
    → (x : Client) × (w.clients t.c ≡ some x) × WaitsOnEmpty x
head_ready t ts w ready = ready t.c (listed_head t ts)

registered-other :
    (flag c : ℕ) (t : Target) (ts : List Target)
    → t.c ≢ c
    → registered flag c (t ∷ ts) ≡ registered flag c ts
registered-other flag c t ts other = ground arith

registered-head :
    (flag : ℕ) (t : Target) (ts : List Target)
    → registered flag t.c (t ∷ ts) ≡ not (bit_and t.flags flag == 0)
registered-head flag t ts = rw (==_refl t.c) refl

registered-passed :
    (flag c : ℕ) (t : Target) (ts : List Target)
    → (bit_and t.flags flag == 0) ≡ true
    → listed t.c ts ≡ false
    → registered flag c (t ∷ ts) ≡ registered flag c ts
registered-passed flag c t ts passed absent = elim (same_or_not t.c c) [
  | inl here ↦
      ap (λ d. registered flag d (t ∷ ts)) (sym here)
      ∙ registered-head flag t ts
      ∙ ap not passed
      ∙ sym (unlisted-registered flag t.c ts absent)
      ∙ ap (λ d. registered flag d ts) here
  | inr other ↦ registered-other flag c t ts other
]

-- The others of the list are as they were.
ready_after :
    (t : Target) (ts : List Target) (v w : World)
    → listed t.c ts ≡ false
    → ((d : ℕ) → d ≢ t.c → v.clients d ≡ w.clients d)
    → CanPush ts w
    → CanPush ts v
ready_after t ts v w absent others ready = λ c there.
    let (x, live, waits) = ready c there in
    (x, others c (λ same. absurd (cc (ap (λ d. listed d ts) same, there, absent))) ∙ live, waits)

notified_head :
    (flag : ℕ) (note : Frame) (t : Target) (ts : List Target) (x : Client) (v w w' : World)
    → (bit_and t.flags flag == 0) ≡ false
    → listed t.c ts ≡ false
    → w.clients t.c ≡ some x
    → v.clients t.c ≡ some (after_push_note x note)
    → w'.clients t.c ≡ notified (registered flag t.c ts) note (v.clients t.c)
    → w'.clients t.c ≡ notified (registered flag t.c (t ∷ ts)) note (w.clients t.c)
notified_head flag note t ts x v w w' hit absent live given rest =
    rest
    ∙ ap (λ b. notified b note (v.clients t.c)) (unlisted-registered flag t.c ts absent)
    ∙ given
    ∙ sym (
        ap (λ b. notified b note (w.clients t.c)) (registered-head flag t ts ∙ ap not hit)
        ∙ ap (notified true note) live)

notified_hit :
    (flag c : ℕ) (note : Frame) (t : Target) (ts : List Target) (x : Client) (v w w' : World)
    → (bit_and t.flags flag == 0) ≡ false
    → listed t.c ts ≡ false
    → w.clients t.c ≡ some x
    → v.clients t.c ≡ some (after_push_note x note)
    → ((d : ℕ) → d ≢ t.c → v.clients d ≡ w.clients d)
    → w'.clients c ≡ notified (registered flag c ts) note (v.clients c)
    → w'.clients c ≡ notified (registered flag c (t ∷ ts)) note (w.clients c)
notified_hit flag c note t ts x v w w' hit absent live given others rest =
    elim (same_or_not t.c c) [
      | inl here ↦
          subst (λ d. w'.clients d ≡ notified (registered flag d (t ∷ ts)) note (w.clients d)) here
            (notified_head flag note t ts x v w w' hit absent live given (
              subst (λ d. w'.clients d ≡ notified (registered flag d ts) note (v.clients d))
                (sym here) rest))
      | inr other ↦
          rest
          ∙ ap (notified (registered flag c ts) note) (others c (λ e. other (sym e)))
          ∙ ap (λ b. notified b note (w.clients c)) (sym (registered-other flag c t ts other))
    ]

sent_notes-same :
    (flag : ℕ) (note : Frame) (ts : List Target) (f g : ℕ → Option Client) (calls : List Effect)
    → ((d : ℕ) → listed d ts ≡ true → f d ≡ g d)
    → sent_notes flag note ts f calls ≡ sent_notes flag note ts g calls
sent_notes-same flag note [] f g calls same = refl
sent_notes-same flag note (t ∷ ts) f g calls same =
    ap
      (λ x.
        sent_notes flag note ts f
          (if bit_and t.flags flag == 0 then calls else sent_note note x calls))
      (same t.c (listed_head t ts))
    ∙ sent_notes-same flag note ts f g
        (if bit_and t.flags flag == 0 then calls else sent_note note (g t.c) calls)
        (λ d there. same d (listed_tail d t ts there))

-- The first client of the list was given the note, and the others are as they were.
sent_notes_hit :
    (flag : ℕ) (note : Frame) (t : Target) (ts : List Target) (x : Client) (v w : World)
    → (bit_and t.flags flag == 0) ≡ false
    → listed t.c ts ≡ false
    → w.clients t.c ≡ some x
    → v.calls ≡ calls_of_push_note x note w.calls
    → ((d : ℕ) → d ≢ t.c → v.clients d ≡ w.clients d)
    → sent_notes flag note ts v.clients v.calls ≡ sent_notes flag note (t ∷ ts) w.clients w.calls
sent_notes_hit flag note t ts x v w hit absent live called others =
    sent_notes-same flag note ts v.clients w.clients v.calls
      (λ d there. others d (λ same. absurd (cc (ap (λ e. listed e ts) same, there, absent))))
    ∙ ap (sent_notes flag note ts w.clients) (
        called
        ∙ sym (
            ap (λ b. if b then w.calls else sent_note note (w.clients t.c) w.calls) hit
            ∙ ap (λ y. sent_note note y w.calls) live))

dispatch_loop_lem :
    (flag : ℕ) (note : Frame) (ts : List Target) (w : World)
    → OnceEach ts
    → CanPush ts w
    → (w' : World) × (dispatch_loop flag note ts w ≡ ok w')
      × ((c : ℕ) → w'.clients c ≡ notified (registered flag c ts) note (w.clients c))
      × (w'.calls ≡ sent_notes flag note ts w.clients w.calls)
unfolding dispatch_loop
dispatch_loop_lem flag note [] w once ready = (w, refl, (λ c. refl), refl)
dispatch_loop_lem flag note (t ∷ ts) w once ready = elim (Bool-cases (bit_and t.flags flag == 0)) [
  | inl passed ↦
      let (w', returns, all, calls) =
        dispatch_loop_lem flag note ts w once.1 (tail_ready t ts w ready) in
      (
        w',
        rw passed returns,
        (λ c.
            all c
            ∙ ap (λ b. notified b note (w.clients c))
                (sym (registered-passed flag c t ts passed once.0))),
        calls
            ∙ ap
                (λ b.
                  sent_notes flag note ts w.clients
                    (if b then w.calls else sent_note note (w.clients t.c) w.calls))
                (sym passed),
      )
  | inr hit ↦
      let (x, live, waits) = head_ready t ts w ready in
      let (v, pushed, given, called, others) = client_push_note_lem t.c x note w live waits in
      let (w', returns, all, calls) =
        dispatch_loop_lem flag note ts v once.1
          (ready_after t ts v w once.0 others (tail_ready t ts w ready)) in
      (
        w',
        rw (hit, pushed) returns,
        (λ c. notified_hit flag c note t ts x v w w' hit once.0 live given others (all c)),
        calls ∙ sent_notes_hit flag note t ts x v w hit once.0 live called others,
      )
]

module _ ⦃env : Platform⦄ where
  -- The clients in the list of the note's source are allocated, each stands there once, and each
  -- waits on an empty queue only. Then the call returns, and every client of the heap that is
  -- registered under the bit of the note has been given it: one that waited no longer waits, and
  -- for any other it is the last of its queue. Every other client is as it was. To those that
  -- waited, and to no other, the header and the payload of the note are written, each client's
  -- timer being removed before if it is set, in the order of the list; no other call is made.
  pub device_dispatch_note_lem :
      (note : Frame) (w : World)
      → OnceEach (w.targets note.source_address)
      → CanPush (w.targets note.source_address) w
      → let flag = shifted_one note.note in
        (w' : World) × (device_dispatch_note note w ≡ ok w')
        × ((c : ℕ)
            → w'.clients c
              ≡ notified (registered flag c (w.targets note.source_address)) note (w.clients c))
        × (w'.calls ≡ sent_notes flag note (w.targets note.source_address) w.clients w.calls)
  unfolding device_dispatch_note
  device_dispatch_note_lem note w once ready =
      dispatch_loop_lem (shifted_one note.note) note (w.targets note.source_address) w once ready
