-- ===== src/Trumpets/Pumping.antt =====
-- trumpets/trumpets.c: from main through any run of its loop.
use sricd.Base.{
  ℕ, ◌≤◌, ◌<◌, ◌^◌, ◌==◌, ◌≡◌, ◌≢◌, refl, true, false, List, [], ◌∷◌, some, ltb, arith,
}
use sricd.Base.Int.{ℤ, pos, negsuc, word}
use sricd.World.{ok}
use sricd.Terminal.{Termios, TermiosCalls}
use sricd.Trumpets.{ChannelName, Trumpets}
use sricd.Trumpets.Serial.{set_flags, serial_conf}
use sricd.Trumpets.StartUp.{HostCalls, Pumping, modulus, opened, open_channels, main}
use sricd.Trumpets.Steps.{Passes, Watches}
use sricd.Trumpets.Passing.{Run, unwatched, Run-Passes}

-- The calls of the system succeed: the port is found as `t` says, and left as `line'`.
pub record CallsWork (T : TermiosCalls) (os : HostCalls T) (device : List ℕ) (tty_fd pty_fd : ℕ)
    (line line' : T.Line) (t t' : Termios) : Type 0 where
  pub found : os.open_tty device ≡ some (tty_fd, line)
  pub positive : 0 < tty_fd
  pub tty : T.isatty line ≡ true
  pub read : T.tcgetattr line ≡ some t
  pub speed_set : T.cfsetspeed 115200 (set_flags T t) ≡ some t'
  pub written : T.tcsetattr t' line ≡ some line'
  pub terminal : os.getpt ≡ some pty_fd
  pub unlocked : os.unlockpt ≡ true

word_range : (n : ℤ) → word n < 2 ^ 32
word_range (pos n) = omega arith
word_range (negsuc n) = omega arith

modulus_bounds :
    (n : ℤ)
    → word n < 2 ^ 32
    → word n ≢ 0
    → ((modulus n == 0) ≡ false) × (0 < modulus n) × (modulus n ≤ 2 ^ 31)
modulus_bounds n range nonzero = ground arith

module _ (T : TermiosCalls) (os : HostCalls T) where
  open_channels_lem :
      (device : List ℕ) (m tty_fd pty_fd : ℕ) (line line' : T.Line) (t t' : Termios)
      → CallsWork T os device tty_fd pty_fd line line' t t'
      → open_channels os device m
        ≡ ok (record {
          rand_modulus = m;
          tty_fd = tty_fd;
          pty_fd = pty_fd;
          line = line';
          state = opened;
        })
  unfolding open_channels serial_conf
  open_channels_lem device m tty_fd pty_fd line line' t t' h =
      let above : ltb tty_fd 1 ≡ false = ground (arith, h.positive) in
      rw (h.found, above, h.tty, h.read, h.speed_set, h.written, h.terminal, h.unlocked) refl

  pub main-Passes :
      (program device text : List ℕ) (tty_fd pty_fd : ℕ) (line line' : T.Line) (t t' : Termios)
      (rand : ℕ → ℕ) (s : Trumpets) (live : Watches) (c : ChannelName)
      → word (os.strtol text) ≢ 0
      → CallsWork T os device tty_fd pty_fd line line' t t'
      → Run rand (modulus (os.strtol text)) opened unwatched s live
      → (p : Pumping T) × (main os (program ∷ device ∷ text ∷ []) ≡ ok p)
        × (p.rand_modulus ≡ modulus (os.strtol text))
        × (p.line ≡ line')
        × (p.state ≡ opened)
        × (0 < p.rand_modulus)
        × (p.rand_modulus ≤ 2 ^ 31)
        × Passes s live c
  unfolding main
  main-Passes program device text tty_fd pty_fd line line' t t' rand s live c nonzero works run =
      let m = modulus (os.strtol text) in
      let (tested, above, below) =
        modulus_bounds (os.strtol text) (word_range (os.strtol text)) nonzero in
      (
        record { rand_modulus = m; tty_fd = tty_fd; pty_fd = pty_fd; line = line'; state = opened },
        rw (tested, open_channels_lem device m tty_fd pty_fd line line' t t' works) refl,
        refl,
        refl,
        refl,
        above,
        below,
        Run-Passes rand m s live c run,
      )
