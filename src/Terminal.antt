-- ===== src/Terminal.antt =====
-- <termios.h>, as sricd/sric-if.c and trumpets/trumpets.c use it: flag words, and calls of the
-- system.
pub mod Settings
use sricd.Base.{ℕ, ◌≡◌, ◌≢◌, Bool, true, false, not, ◌&&◌, ◌||◌, List, Option, some}

-- A word of flags, or a mask: whether the bit with a number is set.
abbrev pub Mask : Type 0
Mask = ℕ → Bool

-- `flags &= ~mask`, `flags |= mask` and `m | n`.
abbrev pub cleared : Mask → Mask → Mask
cleared mask flags b = flags b && not (mask b)

abbrev pub added : Mask → Mask → Mask
added mask flags b = flags b || mask b

infixl 60 ◌∪◌
abbrev pub ◌∪◌ : Mask → Mask → Mask
◌∪◌ m n b = m b || n b

-- `struct termios`; `speed` stands for the fields that hold the speed.
pub record Termios : Type 0 where
  pub c_iflag : Mask
  pub c_oflag : Mask
  pub c_cflag : Mask
  pub c_lflag : Mask
  pub speed : List ℕ

-- The flags of the words. CSIZE and CBAUD are fields of several bits.
pub data InputFlag : Type 0 where
  inpck ignpar istrip ignbrk igncr icrnl ixoff ixon : InputFlag

pub data ControlFlag : Type 0 where
  parenb crtscts hupcl csize cread clocal cstopb cbaud : ControlFlag

pub data LocalFlag : Type 0 where
  icanon echo echoe echoprt echok echoke isig iexten tostop echonl : LocalFlag

-- The constants and the calls. `none` is a return of -1; `Line` is the state of a terminal line.
pub record TermiosCalls : Type 1 where
  pub input : InputFlag → Mask
  pub opost : Mask
  pub control : ControlFlag → Mask
  pub cs8 : Mask
  pub local : LocalFlag → Mask
  pub Line : Type 0
  pub isatty : Line → Bool
  pub tcgetattr : Line → Option Termios
  pub cfsetspeed : ℕ → Termios → Option Termios
  pub tcsetattr : Termios → Line → Option Line

-- What POSIX and termios(3) say: the flags of a word are distinct bits, CS8 is a value of the field
-- CSIZE, and a speed is set in the field CBAUD and outside the flag words.
pub record IsLawful (T : TermiosCalls) : Type 0 where
  pub input_distinct : (f g : InputFlag) (b : ℕ) → f ≢ g → T.input f b ≡ true → T.input g b ≡ false
  pub control_distinct :
      (f g : ControlFlag) (b : ℕ) → f ≢ g → T.control f b ≡ true → T.control g b ≡ false
  pub local_distinct : (f g : LocalFlag) (b : ℕ) → f ≢ g → T.local f b ≡ true → T.local g b ≡ false
  pub cs8_in_csize : (b : ℕ) → T.cs8 b ≡ true → T.control csize b ≡ true
  pub speed_keeps_iflag :
      (n : ℕ) (t t' : Termios) → T.cfsetspeed n t ≡ some t' → t'.c_iflag ≡ t.c_iflag
  pub speed_keeps_oflag :
      (n : ℕ) (t t' : Termios) → T.cfsetspeed n t ≡ some t' → t'.c_oflag ≡ t.c_oflag
  pub speed_keeps_lflag :
      (n : ℕ) (t t' : Termios) → T.cfsetspeed n t ≡ some t' → t'.c_lflag ≡ t.c_lflag
  pub speed_in_cbaud :
      (n : ℕ) (t t' : Termios) (b : ℕ)
      → T.cfsetspeed n t ≡ some t'
      → T.control cbaud b ≡ false
      → t'.c_cflag b ≡ t.c_cflag b
