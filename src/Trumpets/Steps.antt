-- ===== src/Trumpets/Steps.antt =====
-- trumpets/trumpets.c: the callbacks as steps of the main loop, and what each does to a direction.
use sricd.Base.{
  true, ◌∙◌, ℕ, suc, ◌+◌, ◌%◌, ◌^◌, ◌≤◌, ◌<◌, ◌≡◌, ◌⊎◌, ==_iff, sym, ap, refl, Bool, not, List, [],
  ◌∷◌, ◌++◌, bit_xor, ◌==◌, if◌then◌else◌, length, take, drop, arith, append_assoc, length-append,
  length-drop, take-append-drop, Bool-cases, inl, inr,
}
use sricd.World.{ok}
use sricd.Trumpets.{
  put, ChannelName, tty, pty, target, Trumpets, got, again, buffer_size, insert_errors, arrived,
  rx_data, wrote, passed_on, tx_data,
}

-- The second text is the first but that in some bytes one of the eight bits is flipped.
pub data Flips : List ℕ → List ℕ → Type 0 where
  done : Flips [] []
  same : (x : ℕ) {xs ys : List ℕ} → Flips xs ys → Flips (x ∷ xs) (x ∷ ys)
  flipped :
      (x bit : ℕ) {xs ys : List ℕ}
      → bit < 8
      → Flips xs ys
      → Flips (x ∷ xs) (bit_xor x (2 ^ bit) ∷ ys)

Flips-append : {xs ys us vs : List ℕ} → Flips xs ys → Flips us vs → Flips (xs ++ us) (ys ++ vs)
Flips-append done more = more
Flips-append (same x rest) more = same x (Flips-append rest more)
Flips-append (flipped x bit small rest) more = flipped x bit small (Flips-append rest more)

-- The write watches that GLib holds: a channel has one from the call of `g_io_add_watch` until its
-- callback returns FALSE. `rx_data` makes that call if `tx_watch_id` of the other channel is 0.
abbrev pub Watches : Type 0
Watches = ChannelName → Bool

abbrev pub after_rx : ChannelName → Trumpets → Watches → Watches
after_rx c s live =
    put live (target c) (if (s.channels (target c)).tx_watch_id == 0 then true else live (target c))

-- A callback of the main loop that returns. `read` gives no more than there is room for, `write`
-- takes no more than it is given, and GLib's ids are positive; it calls `tx_data` for a channel
-- that has its watch, and takes the watch away if that returns FALSE.
pub data Step (rand : ℕ → ℕ) (rand_modulus : ℕ)
    : Trumpets → Watches → Trumpets → Watches → Type 0 where
  receive :
      (c : ChannelName) (bytes : List ℕ) (id : ℕ) (s s' : Trumpets) (live : Watches)
      → length bytes + length (s.channels c).buffer ≤ buffer_size
      → 0 < id
      → rx_data rand rand_modulus c (got bytes) id s ≡ ok s'
      → Step rand rand_modulus s live s' (after_rx c s live)
  idle :
      (c : ChannelName) (id : ℕ) (s s' : Trumpets) (live : Watches)
      → rx_data rand rand_modulus c again id s ≡ ok s'
      → Step rand rand_modulus s live s' live
  send :
      (c : ChannelName) (n : ℕ) (more : Bool) (s s' : Trumpets) (live : Watches)
      → live c ≡ true
      → n ≤ length (s.channels (target c)).buffer
      → tx_data c (wrote n) s ≡ ok (s', more)
      → Step rand rand_modulus s live s' (put live c more)

-- One direction, from the channel `c` to the other.
pub record Passes (s : Trumpets) (live : Watches) (c : ChannelName) : Type 0 where
  pub text : Flips (s.taken c) (s.given (target c) ++ (s.channels c).buffer)
  pub bounds : length (s.channels c).buffer ≤ buffer_size
  pub watch : (length (s.channels c).buffer ≡ 0) ⊎ (live (target c) ≡ true)
  pub known : live (target c) ≡ not ((s.channels (target c)).tx_watch_id == 0)

watch_set :
    (id watch : ℕ) (live : Bool)
    → 0 < id
    → live ≡ not (watch == 0)
    → ((if watch == 0 then true else live) ≡ true)
      × ((if watch == 0 then true else live) ≡ not ((if watch == 0 then id else watch) == 0))
watch_set id watch live above known = ground arith

module _ (rand : ℕ → ℕ) (rand_modulus : ℕ) where
  insert_errors-Flips :
      (bytes : List ℕ) (draws : ℕ) → Flips bytes (insert_errors rand rand_modulus bytes draws).0
  unfolding insert_errors
  insert_errors-Flips [] draws = done
  insert_errors-Flips (b ∷ bytes) draws = elim (Bool-cases (rand draws % rand_modulus == 0)) [
    | inl hit ↦
        rw hit
          (flipped b (rand (draws + 1) % 8) (omega arith) (insert_errors-Flips bytes (draws + 2)))
    | inr missed ↦ rw missed (same b (insert_errors-Flips bytes (draws + 1)))
  ]

  length-insert_errors :
      (bytes : List ℕ) (draws : ℕ)
      → length (insert_errors rand rand_modulus bytes draws).0 ≡ length bytes
  unfolding insert_errors
  length-insert_errors [] draws = refl
  length-insert_errors (b ∷ bytes) draws = elim (Bool-cases (rand draws % rand_modulus == 0)) [
    | inl hit ↦ rw hit (ap suc (length-insert_errors bytes (draws + 2)))
    | inr missed ↦ rw missed (ap suc (length-insert_errors bytes (draws + 1)))
  ]

  -- Bytes come in on the channel itself.
  arrived_text :
      (t g b bytes : List ℕ) (draws : ℕ)
      → Flips t (g ++ b)
      → Flips (t ++ bytes) (g ++ (b ++ (insert_errors rand rand_modulus bytes draws).0))
  arrived_text t g b bytes draws text =
      rw (sym (append_assoc g b (insert_errors rand rand_modulus bytes draws).0))
        (Flips-append text (insert_errors-Flips bytes draws))

  arrived_bounds :
      (b bytes : List ℕ) (draws : ℕ)
      → length bytes + length b ≤ buffer_size
      → length (b ++ (insert_errors rand rand_modulus bytes draws).0) ≤ buffer_size
  arrived_bounds b bytes draws room = omega (
    arith,
    length-append b (insert_errors rand rand_modulus bytes draws).0,
    length-insert_errors bytes draws,
    room,
  )

  pub arrived-Passes :
      (c d : ChannelName) (bytes : List ℕ) (id : ℕ) (s : Trumpets) (live : Watches)
      → length bytes + length (s.channels c).buffer ≤ buffer_size
      → 0 < id
      → Passes s live d
      → Passes (arrived rand rand_modulus c bytes id s) (after_rx c s live) d
  arrived-Passes tty tty bytes id s live room above p =
      let (there, known) = watch_set id (s.channels pty).tx_watch_id (live pty) above p.known in
      record {
        text =
            arrived_text (s.taken tty) (s.given pty) (s.channels tty).buffer bytes s.draws p.text;
        bounds = arrived_bounds (s.channels tty).buffer bytes s.draws room;
        watch = inr there;
        known = known;
      }
  arrived-Passes pty pty bytes id s live room above p =
      let (there, known) = watch_set id (s.channels tty).tx_watch_id (live tty) above p.known in
      record {
        text =
            arrived_text (s.taken pty) (s.given tty) (s.channels pty).buffer bytes s.draws p.text;
        bounds = arrived_bounds (s.channels pty).buffer bytes s.draws room;
        watch = inr there;
        known = known;
      }
  arrived-Passes tty pty bytes id s live room above p = record {
    text = p.text;
    bounds = p.bounds;
    watch = p.watch;
    known = p.known;
  }
  arrived-Passes pty tty bytes id s live room above p = record {
    text = p.text;
    bounds = p.bounds;
    watch = p.watch;
    known = p.known;
  }

-- Bytes go out on the other channel.
passed_text : (n : ℕ) (t g b : List ℕ) → Flips t (g ++ b) → Flips t ((g ++ take n b) ++ drop n b)
passed_text n t g b text = rw (append_assoc g (take n b) (drop n b), take-append-drop n b) text

passed_bounds : (n : ℕ) (b : List ℕ) → length b ≤ buffer_size → length (drop n b) ≤ buffer_size
passed_bounds n b bounds = omega (arith, length-drop n b)

-- The watch stays exactly if something is left.
abbrev pub some_left : List ℕ → Bool
some_left left = not (length left == 0)

passed_watch :
    (watch : ℕ) (left : List ℕ) (live : Bool)
    → live ≡ true
    → live ≡ not (watch == 0)
    → ((length left ≡ 0) ⊎ (some_left left ≡ true))
      × (some_left left ≡ not ((if length left == 0 then 0 else watch) == 0))
passed_watch watch left live there known = elim (Bool-cases (length left == 0)) [
  | inl empty ↦ (inl ((==_iff (length left) 0).0 empty), rw empty refl)
  | inr holds ↦ (inr (ap not holds), rw holds (sym there ∙ known))
]

pub passed_on-Passes :
    (c d : ChannelName) (n : ℕ) (s : Trumpets) (live : Watches)
    → live c ≡ true
    → Passes s live d
    → Passes (passed_on c n s) (put live c (some_left (drop n (s.channels (target c)).buffer))) d
passed_on-Passes tty pty n s live there p =
    let left = drop n (s.channels pty).buffer in
    let (watch, known) = passed_watch (s.channels tty).tx_watch_id left (live tty) there p.known in
    record {
      text = passed_text n (s.taken pty) (s.given tty) (s.channels pty).buffer p.text;
      bounds = passed_bounds n (s.channels pty).buffer p.bounds;
      watch = watch;
      known = known;
    }
passed_on-Passes pty tty n s live there p =
    let left = drop n (s.channels tty).buffer in
    let (watch, known) = passed_watch (s.channels pty).tx_watch_id left (live pty) there p.known in
    record {
      text = passed_text n (s.taken tty) (s.given pty) (s.channels tty).buffer p.text;
      bounds = passed_bounds n (s.channels tty).buffer p.bounds;
      watch = watch;
      known = known;
    }
passed_on-Passes tty tty n s live there p = record {
  text = p.text;
  bounds = p.bounds;
  watch = p.watch;
  known = p.known;
}
passed_on-Passes pty pty n s live there p = record {
  text = p.text;
  bounds = p.bounds;
  watch = p.watch;
  known = p.known;
}
