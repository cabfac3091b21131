-- ===== src/Terminal/Settings.antt =====
-- sricd/sric-if.c and trumpets/trumpets.c: the settings that serial_conf leaves on a terminal.
use sricd.Base.{ℕ, ap, ◌∙◌, ◌≡◌, ◌≢◌, refl, Bool, true, false, some, arith}
use sricd.World.{ok}
use sricd.Terminal.{
  Mask, Termios, TermiosCalls, IsLawful, InputFlag, inpck, ignpar, ControlFlag, parenb, csize,
  cread, clocal, cbaud, LocalFlag, icanon, echoe, echonl,
}
use sricd.SricIf.Serial.{set_flags, serial_conf}
use sricd.Trumpets.Serial.{serial_conf as trumpets_serial_conf}

-- What a flag is to be, for `old` what it was.
abbrev pub input_setting : InputFlag → Bool
input_setting ignpar = true
input_setting _ = false

abbrev pub local_setting : LocalFlag → Bool → Bool
local_setting echonl old = true
local_setting echoe old = old
local_setting _ old = false

-- `eight` is the bit of the character size of 8 bits, for `csize`.
abbrev pub control_setting : ControlFlag → Bool → Bool → Bool
control_setting cread eight old = true
control_setting clocal eight old = true
control_setting csize eight old = eight
control_setting cbaud eight old = old
control_setting _ eight old = false

module _ (T : TermiosCalls) (L : IsLawful T) (t : Termios) (b : ℕ) where
  set_flags-input :
      (f : InputFlag) → T.input f b ≡ true → (set_flags T t).c_iflag b ≡ input_setting f
  unfolding set_flags
  set_flags-input inpck h = grind (arith, L.input_distinct)
  set_flags-input f h = grind (arith, L.input_distinct)

  -- CS8 holds no bit of another flag.
  cs8_distinct : (f : ControlFlag) → csize ≢ f → T.control f b ≡ true → T.cs8 b ≡ false
  cs8_distinct f other h = grind (arith, L.control_distinct, L.cs8_in_csize)

  set_flags-control :
      (f : ControlFlag)
      → T.control f b ≡ true
      → (set_flags T t).c_cflag b ≡ control_setting f (T.cs8 b) (t.c_cflag b)
  unfolding set_flags
  set_flags-control parenb h = grind (arith, L.control_distinct, cs8_distinct)
  set_flags-control f h = grind (arith, L.control_distinct, cs8_distinct)

  set_flags-local :
      (f : LocalFlag)
      → T.local f b ≡ true
      → (set_flags T t).c_lflag b ≡ local_setting f (t.c_lflag b)
  unfolding set_flags
  set_flags-local icanon h = grind (arith, L.local_distinct)
  set_flags-local f h = grind (arith, L.local_distinct)

-- `after` has every flag as it is to be, for `before`: no parity, 8 bits, one stop bit, no flow
-- control, no processing of input, output or lines.
pub record IsConfigured (T : TermiosCalls) (before after : Termios) : Type 0 where
  pub input : (f : InputFlag) (b : ℕ) → T.input f b ≡ true → after.c_iflag b ≡ input_setting f
  pub output : (b : ℕ) → T.opost b ≡ true → after.c_oflag b ≡ false
  pub control :
      (f : ControlFlag) (b : ℕ)
      → f ≢ cbaud
      → T.control f b ≡ true
      → after.c_cflag b ≡ control_setting f (T.cs8 b) (before.c_cflag b)
  pub local :
      (f : LocalFlag) (b : ℕ)
      → T.local f b ≡ true
      → after.c_lflag b ≡ local_setting f (before.c_lflag b)

module _ (T : TermiosCalls) (L : IsLawful T) (t t' : Termios)
    (speed_set : T.cfsetspeed 115200 (set_flags T t) ≡ some t') where
  set_flags-IsConfigured : IsConfigured T t t'
  unfolding set_flags
  set_flags-IsConfigured = record {
    input = λ f b h.
        ap (λ (m : Mask). m b) (L.speed_keeps_iflag 115200 (set_flags T t) t' speed_set)
        ∙ set_flags-input T L t b f h;
    output = λ b h.
        ap (λ (m : Mask). m b) (L.speed_keeps_oflag 115200 (set_flags T t) t' speed_set)
        ∙ ground arith;
    control = λ f b other h.
        L.speed_in_cbaud 115200 (set_flags T t) t' b speed_set
          (L.control_distinct f cbaud b other h)
        ∙ set_flags-control T L t b f h;
    local = λ f b h.
        ap (λ (m : Mask). m b) (L.speed_keeps_lflag 115200 (set_flags T t) t' speed_set)
        ∙ set_flags-local T L t b f h;
  }

  pub serial_conf_lem :
      (line line' : T.Line)
      → T.isatty line ≡ true
      → T.tcgetattr line ≡ some t
      → T.tcsetattr t' line ≡ some line'
      → (serial_conf T line ≡ ok line')
        × (trumpets_serial_conf T line ≡ ok line')
        × IsConfigured T t t'
  unfolding serial_conf trumpets_serial_conf
  serial_conf_lem line line' tty read written = (
    rw (tty, read, speed_set, written) refl,
    rw (tty, read, speed_set, written) refl,
    set_flags-IsConfigured,
  )
