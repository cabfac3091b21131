-- ===== src/Trumpets/Passing.antt =====
-- trumpets/trumpets.c: what is passed on is what came in, but for single bits.
use sricd.Base.{
  false, ℕ, ◌+◌, ◌≤◌, ◌<◌, ◌≡◌, sym, refl, not, ◌&&◌, List, ◌==◌, length, drop, arith, Bool-cases,
  inl, inr,
}
use sricd.World.{ok}
use sricd.Trumpets.StartUp.{opened}
use sricd.Trumpets.{
  ChannelName, target, Trumpets, got, buffer_size, arrived, rx_data, passed_on, tx_data,
}
use sricd.Trumpets.Steps.{
  Watches, after_rx, Step, receive, idle, send, Passes, done, arrived-Passes, passed_on-Passes,
  some_left,
}

-- The main loop: some callbacks, one after the other.
pub data Run (rand : ℕ → ℕ) (rand_modulus : ℕ)
    : Trumpets → Watches → Trumpets → Watches → Type 0 where
  stop : (s : Trumpets) (live : Watches) → Run rand rand_modulus s live s live
  go :
      (s s' s'' : Trumpets) (live live' live'' : Watches)
      → Run rand rand_modulus s live s' live'
      → Step rand rand_modulus s' live' s'' live''
      → Run rand rand_modulus s live s'' live''

returned : {A : Type 0} (a b : A) → ok a ≡ ok b → a ≡ b
returned a b e = cc e

rx_data-Passes :
    (rand : ℕ → ℕ) (rand_modulus : ℕ) (c d : ChannelName) (bytes : List ℕ) (id : ℕ)
    (s s' : Trumpets) (live : Watches)
    → length bytes + length (s.channels c).buffer ≤ buffer_size
    → 0 < id
    → rx_data rand rand_modulus c (got bytes) id s ≡ ok s'
    → Passes s live d
    → Passes s' (after_rx c s live) d
unfolding rx_data
rx_data-Passes rand rand_modulus c d bytes id s s' live room above returns p =
    elim (Bool-cases ((length bytes == 0) && not (length (s.channels c).buffer == buffer_size))) [
      | inl eof ↦ absurd (cc (rw eof at returns))
      | inr goes_on ↦
          let s'_is =
            returned (arrived rand rand_modulus c bytes id s) s' (rw goes_on at returns) in
          rw (sym s'_is) (arrived-Passes rand rand_modulus c d bytes id s live room above p)
    ]

Step-Passes :
    (rand : ℕ → ℕ) (rand_modulus : ℕ) (s s' : Trumpets) (live live' : Watches)
    → Step rand rand_modulus s live s' live'
    → (d : ChannelName) → Passes s live d
    → Passes s' live' d
unfolding rx_data tx_data
Step-Passes rand rand_modulus _ _ _ _ (receive c bytes id s s' live room above returns) d p =
    rx_data-Passes rand rand_modulus c d bytes id s s' live room above returns p
Step-Passes rand rand_modulus _ _ _ _ (idle c id s s' live returns) d p =
    let s'_is = returned s s' returns in rw (sym s'_is) p
Step-Passes rand rand_modulus _ _ _ _ (send c n more s s' live there size returns) d p =
    let left = drop n (s.channels (target c)).buffer in
    let s'_is : passed_on c n s ≡ s' = cc returns in
    let more_is : some_left left ≡ more = cc returns in
    rw (sym s'_is, sym more_is) (passed_on-Passes c d n s live there p)

abbrev pub unwatched : Watches
unwatched c = false

-- After any run of the callbacks, whatever `rand` returns: in either direction, what was written
-- and what the buffer still holds is, in order, what was read, but that in some bytes one bit is
-- flipped; no buffer holds more than its 256 bytes; as long as one holds something, GLib holds the
-- watch of the other channel; and `tx_watch_id` is 0 exactly if it does not.
pub Run-Passes :
    (rand : ℕ → ℕ) (rand_modulus : ℕ) (s : Trumpets) (live : Watches) (c : ChannelName)
    → Run rand rand_modulus opened unwatched s live
    → Passes s live c
Run-Passes rand rand_modulus s live c (stop _ _) = record {
  text = done;
  bounds = omega arith;
  watch = inl refl;
  known = refl;
}
Run-Passes rand rand_modulus s live c (go _ s' _ _ live' _ run step) =
    Step-Passes rand rand_modulus s' s live' live step c
      (Run-Passes rand rand_modulus s' live' c run)
