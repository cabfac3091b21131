-- ===== src/World/Ensures.antt =====
-- A postcondition of a call that may end without returning; `no_fuel` never meets it.
use sricd.Base.{◌≡◌, refl, Bool, true, false, if◌then◌else◌}
use sricd.World.{Outcome, ok, exited, aborted, fault, no_fuel, ◌>>=◌}

abbrev pub Ensures {ℓ} : {A : Type ℓ} → (A → Type 0) → Outcome A → Type 0
Ensures P (ok a) = P a
Ensures P exited = Unit {0}
Ensures P aborted = Unit {0}
Ensures P fault = Unit {0}
Ensures P no_fuel = ⊥

-- The rule for a call that is followed by another.
pub Ensures->>= {ℓ κ} :
    {A : Type ℓ} {B : Type κ} (P : A → Type 0) (Q : B → Type 0) (m : Outcome A) (f : A → Outcome B)
    → Ensures P m
    → ((a : A) → P a → Ensures Q (f a))
    → Ensures Q (m >>= f)
Ensures->>= P Q (ok a) f h k = k a h
Ensures->>= P Q exited f h k = tt
Ensures->>= P Q aborted f h k = tt
Ensures->>= P Q fault f h k = tt
Ensures->>= P Q no_fuel f h k = absurd h

pub Ensures-mono {ℓ} :
    {A : Type ℓ} (P : A → Type 0) (Q : A → Type 0) (m : Outcome A)
    → Ensures P m
    → ((a : A) → P a → Q a)
    → Ensures Q m
Ensures-mono P Q (ok a) h k = k a h
Ensures-mono P Q exited h k = tt
Ensures-mono P Q aborted h k = tt
Ensures-mono P Q fault h k = tt
Ensures-mono P Q no_fuel h k = absurd h

pub Ensures-if {ℓ} :
    {A : Type ℓ} (P : A → Type 0) (b : Bool) (m n : Outcome A)
    → (b ≡ true → Ensures P m)
    → (b ≡ false → Ensures P n)
    → Ensures P (if b then m else n)
Ensures-if P true m n h k = h refl
Ensures-if P false m n h k = k refl
