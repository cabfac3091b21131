-- ===== src/Trumpets/StartUp.antt =====
-- trumpets/trumpets.c: main, up to its loop.
use sricd.Base.{ℕ, ◌-◌, ◌^◌, ◌==◌, Bool, List, [], ◌∷◌, Option, ltb, if◌then◌else◌}
use sricd.Base.Int.{ℤ, word}
use sricd.World.{Outcome, ok, exited, ◌>>=◌}
use sricd.Terminal.{TermiosCalls}
use sricd.SricIf.Serial.{or_exit}
use sricd.Trumpets.{Trumpets}
use sricd.Trumpets.Serial.{serial_conf}

-- What the C library and the system do for the program: `strtol`, in base 10; `open` on a path,
-- which gives a descriptor and a line; `getpt`; and whether `unlockpt` succeeds.
pub record HostCalls (T : TermiosCalls) : Type 0 where
  pub strtol : List ℕ → ℤ
  pub open_tty : List ℕ → Option (ℕ × T.Line)
  pub getpt : Option ℕ
  pub unlockpt : Bool

-- The statics at the start of the loop, with the descriptors of the channels beside them;
-- `rand_modulus` is without its sign, which `%` on what `rand` returns does not depend on.
pub record Pumping (T : TermiosCalls) : Type 0 where
  pub rand_modulus : ℕ
  pub tty_fd : ℕ
  pub pty_fd : ℕ
  pub line : T.Line
  pub state : Trumpets

-- The `int` that a `long` is cut to, without its sign.
abbrev pub modulus : ℤ → ℕ
modulus n = if ltb (word n) (2 ^ 31) then word n else 2 ^ 32 - word n

-- Both channels as `main` leaves them.
abbrev pub opened : Trumpets
opened = record {
  channels = λ _. record { buffer = []; tx_watch_id = 0 };
  draws = 0;
  taken = λ _. [];
  given = λ _. [];
}

module _ {T : TermiosCalls} (os : HostCalls T) where
  -- `main` behind its checks of the arguments.
  unfoldable pub open_channels : List ℕ → ℕ → Outcome (Pumping T)
  unfolding serial_conf
  open_channels device rand_modulus = do
    (fd, found) ← or_exit (os.open_tty device)
    line ← if ltb fd 1 then exited else serial_conf T found
    pty ← or_exit os.getpt
    if os.unlockpt
        then ok (record {
          rand_modulus = rand_modulus;
          tty_fd = fd;
          pty_fd = pty;
          line = line;
          state = opened;
        })
        else exited

  -- A return of 1 is `exited`.
  unfoldable pub main : List (List ℕ) → Outcome (Pumping T)
  unfolding open_channels
  main (program ∷ device ∷ text ∷ []) =
      if modulus (os.strtol text) == 0
      then exited
      else open_channels device (modulus (os.strtol text))
  main _ = exited
