-- ===== src/Trumpets/Serial.antt =====
-- trumpets/trumpets.c: the set-up of the serial port.
use sricd.Base.{if◌then◌else◌}
use sricd.World.{Outcome, exited, ◌>>=◌}
use sricd.SricIf.Serial.{or_exit}
use sricd.Terminal.{
  Termios, TermiosCalls, cleared, added, ◌∪◌, inpck, ignpar, istrip, ignbrk, igncr, icrnl, ixoff,
  ixon, parenb, crtscts, hupcl, csize, cread, clocal, cstopb, icanon, echo, echoprt, echok, echoke,
  isig, iexten, tostop, echonl,
}

module _ (T : TermiosCalls) where
  -- The assignments to the flag words; each word is listed with its own, the last one outermost.
  unfoldable pub set_flags : Termios → Termios
  set_flags t = record t {
    c_iflag = cleared (T.input ixoff ∪ T.input ixon) (
        cleared (T.input istrip ∪ T.input ignbrk ∪ T.input igncr ∪ T.input icrnl)
          (added (T.input ignpar) (cleared (T.input inpck) t.c_iflag)));
    c_oflag = cleared T.opost t.c_oflag;
    c_cflag = cleared (T.control cstopb) (
        added (T.control cread ∪ T.cs8 ∪ T.control clocal) (
          cleared (T.control hupcl ∪ T.control csize)
            (cleared (T.control crtscts) (cleared (T.control parenb) t.c_cflag))));
    c_lflag = added (T.local echonl) (
        cleared
          (T.local icanon
            ∪ T.local echo
            ∪ T.local echo
            ∪ T.local echoprt
            ∪ T.local echok
            ∪ T.local echoke
            ∪ T.local isig
            ∪ T.local iexten
            ∪ T.local tostop)
          t.c_lflag);
  }

  unfoldable pub serial_conf : T.Line → Outcome (T.Line)
  unfolding set_flags
  serial_conf tty =
      if T.isatty tty
      then (or_exit (T.tcgetattr tty) >>= λ t.
          or_exit (T.cfsetspeed 115200 (set_flags t)) >>= λ t'. or_exit (T.tcsetattr t' tty))
      else exited
