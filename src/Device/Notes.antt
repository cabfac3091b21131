-- ===== src/Device/Notes.antt =====
-- sricd/device.c: who is registered for which notes.
use sricd.Base.{
  ℕ, ◌≡◌, ◌≢◌, refl, Bool, true, false, List, [], ◌∷◌, arith, ◌==◌, if◌then◌else◌, Bool-cases, inl,
  inr,
}
use sricd.World.{Target}
use sricd.Device.{drop_target, update_target}

-- The flags under which a client stands in the list of an address: 0 if it does not.
abbrev pub flags_of : ℕ → List Target → ℕ
flags_of c [] = 0
flags_of c (t ∷ ts) = if t.c == c then t.flags else flags_of c ts

abbrev pub listed : ℕ → List Target → Bool
listed c [] = false
listed c (t ∷ ts) = if t.c == c then true else listed c ts

-- Each client stands in the list once.
abbrev pub OnceEach : List Target → Type 0
OnceEach [] = Unit {0}
OnceEach (t ∷ ts) = (listed t.c ts ≡ false) × OnceEach ts

drop_target-listed :
    (c d : ℕ) (ts : List Target) → listed d ts ≡ false → listed d (drop_target c ts) ≡ false
unfolding drop_target
drop_target-listed c d [] h = refl
drop_target-listed c d (t ∷ ts) h = ground (arith, drop_target-listed c d ts)

pub drop_target-OnceEach : (c : ℕ) (ts : List Target) → OnceEach ts → OnceEach (drop_target c ts)
unfolding drop_target
drop_target-OnceEach c [] h = tt
drop_target-OnceEach c (t ∷ ts) h =
    ground (arith, drop_target-OnceEach c ts h.1, drop_target-listed c t.c ts h.0)

pub unlisted_flags : (c : ℕ) (ts : List Target) → listed c ts ≡ false → flags_of c ts ≡ 0
unlisted_flags c [] h = refl
unlisted_flags c (t ∷ ts) h = ground (arith, unlisted_flags c ts)

pub drop_target-unlisted :
    (c : ℕ) (ts : List Target) → OnceEach ts → listed c (drop_target c ts) ≡ false
unfolding drop_target
drop_target-unlisted c [] h = refl
drop_target-unlisted c (t ∷ ts) h = ground (arith, drop_target-unlisted c ts h.1)

pub drop_target-other :
    (c d : ℕ) (ts : List Target) → d ≢ c → flags_of d (drop_target c ts) ≡ flags_of d ts
unfolding drop_target
drop_target-other c d [] h = refl
drop_target-other c d (t ∷ ts) h = ground (arith, drop_target-other c d ts h)

update_target-listed :
    (c notes d : ℕ) (ts : List Target) → d ≢ c → listed d (update_target c notes ts) ≡ listed d ts
unfolding update_target
update_target-listed c notes d [] h = ground arith
update_target-listed c notes d (t ∷ ts) h = ground (arith, update_target-listed c notes d ts h)

pub update_target-OnceEach :
    (c notes : ℕ) (ts : List Target) → OnceEach ts → OnceEach (update_target c notes ts)
unfolding update_target
update_target-OnceEach c notes [] h = (refl, tt)
update_target-OnceEach c notes (t ∷ ts) h = elim (Bool-cases (t.c == c)) [
  | inl same ↦ rw same h
  | inr other ↦
      rw other
        (ground (arith, update_target-listed c notes t.c ts), update_target-OnceEach c notes ts h.1)
]

pub update_target-same :
    (c notes : ℕ) (ts : List Target) → flags_of c (update_target c notes ts) ≡ notes
unfolding update_target
update_target-same c notes [] = ground arith
update_target-same c notes (t ∷ ts) = ground (arith, update_target-same c notes ts)

pub update_target-other :
    (c notes d : ℕ) (ts : List Target)
    → d ≢ c
    → flags_of d (update_target c notes ts) ≡ flags_of d ts
unfolding update_target
update_target-other c notes d [] h = ground arith
update_target-other c notes d (t ∷ ts) h = ground (arith, update_target-other c notes d ts h)
