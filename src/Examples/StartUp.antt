-- ===== src/Examples/StartUp.antt =====
-- The theorems on the start of the daemon at concrete inputs: a terminal, and a system on which it
-- starts.
use sricd.Base.{
  ℕ, ◌-◌, ◌≡◌, ◌≢◌, ap, sym, ◌∙◌, refl, Bool-cases, inl, inr, true, false, [], ◌∷◌, Option, none,
  some, arith, ◌==◌, if◌then◌else◌,
}
use sricd.World.{World, enumerating, ok, no_fuel, kill_token_timeout, send_reset_timeout}
use sricd.Terminal.{
  Termios, TermiosCalls, IsLawful, InputFlag, inpck, ignpar, istrip, ignbrk, igncr, icrnl, ixoff,
  ixon, ControlFlag, parenb, crtscts, hupcl, csize, cread, clocal, cstopb, cbaud, LocalFlag, icanon,
  echo, echoe, echoprt, echok, echoke, isig, iexten, tostop, echonl,
}
use sricd.SricIf.Serial.{set_flags, serial_conf}
use sricd.Trumpets.Serial.{serial_conf as trumpets_serial_conf}
use sricd.Terminal.Settings.{IsConfigured, serial_conf_lem}
use sricd.SricEnum.{kill_token_timeout_fired}
use sricd.Device.Reset.{reset_entry}
use sricd.SricEnum.StartUp.{timers, reset_timer, start_up_commands, at_start}
use sricd.Ipc.SetUp.{Listener, no_entry}
use sricd.Daemon.{Settings, initial, set_options, opt_foreground, opt_verbose}
use sricd.Daemon.Init.{System, Running, main_loop, main}
use sricd.Daemon.StartUp.{main_lem}
use sricd.Examples.{started, example_platform}

-- The flags by number, and the flag of a bit.
abbrev input_number : InputFlag → ℕ
input_number inpck = 0
input_number ignpar = 1
input_number istrip = 2
input_number ignbrk = 3
input_number igncr = 4
input_number icrnl = 5
input_number ixoff = 6
input_number ixon = 7

abbrev control_number : ControlFlag → ℕ
control_number parenb = 0
control_number crtscts = 1
control_number hupcl = 2
control_number csize = 3
control_number cread = 4
control_number clocal = 5
control_number cstopb = 6
control_number cbaud = 7

abbrev local_number : LocalFlag → ℕ
local_number icanon = 0
local_number echo = 1
local_number echoe = 2
local_number echoprt = 3
local_number echok = 4
local_number echoke = 5
local_number isig = 6
local_number iexten = 7
local_number tostop = 8
local_number echonl = 9

numbers_distinct :
    {A : Type 0} (number : A → ℕ)
    → ((f g : A) → number f ≡ number g → f ≡ g)
    → (f g : A) (b : ℕ) → f ≢ g
    → (b == number f) ≡ true
    → (b == number g) ≡ false
numbers_distinct number same f g b other here = elim (Bool-cases (b == number g)) [
  | inl there ↦ let one : number f ≡ number g = ground arith in absurd (other (same f g one))
  | inr away ↦ away
]

abbrev input_at : ℕ → InputFlag
input_at n =
    if n == 0
    then inpck
    else if n == 1
    then ignpar
    else if n == 2
    then istrip
    else if n == 3
    then ignbrk
    else if n == 4
    then igncr
    else if n == 5
    then icrnl
    else if n == 6
    then ixoff
    else ixon

input_at-number : (f : InputFlag) → input_at (input_number f) ≡ f
input_at-number inpck = refl
input_at-number ignpar = refl
input_at-number istrip = refl
input_at-number ignbrk = refl
input_at-number igncr = refl
input_at-number icrnl = refl
input_at-number ixoff = refl
input_at-number ixon = refl

input_numbers : (f g : InputFlag) → input_number f ≡ input_number g → f ≡ g
input_numbers f g e = sym (input_at-number f) ∙ ap input_at e ∙ input_at-number g

abbrev control_at : ℕ → ControlFlag
control_at n =
    if n == 0
    then parenb
    else if n == 1
    then crtscts
    else if n == 2
    then hupcl
    else if n == 3
    then csize
    else if n == 4
    then cread
    else if n == 5
    then clocal
    else if n == 6
    then cstopb
    else cbaud

control_at-number : (f : ControlFlag) → control_at (control_number f) ≡ f
control_at-number parenb = refl
control_at-number crtscts = refl
control_at-number hupcl = refl
control_at-number csize = refl
control_at-number cread = refl
control_at-number clocal = refl
control_at-number cstopb = refl
control_at-number cbaud = refl

control_numbers : (f g : ControlFlag) → control_number f ≡ control_number g → f ≡ g
control_numbers f g e = sym (control_at-number f) ∙ ap control_at e ∙ control_at-number g

abbrev local_at : ℕ → LocalFlag
local_at n =
    if n == 0
    then icanon
    else if n == 1
    then echo
    else if n == 2
    then echoe
    else if n == 3
    then echoprt
    else if n == 4
    then echok
    else if n == 5
    then echoke
    else if n == 6
    then isig
    else if n == 7
    then iexten
    else if n == 8
    then tostop
    else echonl

local_at-number : (f : LocalFlag) → local_at (local_number f) ≡ f
local_at-number icanon = refl
local_at-number echo = refl
local_at-number echoe = refl
local_at-number echoprt = refl
local_at-number echok = refl
local_at-number echoke = refl
local_at-number isig = refl
local_at-number iexten = refl
local_at-number tostop = refl
local_at-number echonl = refl

local_numbers : (f g : LocalFlag) → local_number f ≡ local_number g → f ≡ g
local_numbers f g e = sym (local_at-number f) ∙ ap local_at e ∙ local_at-number g

-- A line is its settings; a character size of 8 bits is the one bit of CSIZE.
abbrev pub some_calls : TermiosCalls
some_calls = record {
  input = λ f b. b == input_number f;
  opost = λ b. b == 0;
  control = λ f b. b == control_number f;
  cs8 = λ b. b == 3;
  local = λ f b. b == local_number f;
  Line = Termios;
  isatty = λ line. true;
  tcgetattr = λ line. some line;
  cfsetspeed = λ n t. some (record t { speed = n ∷ [] });
  tcsetattr = λ t line. some t;
}

speed_only :
    (n : ℕ) (t t' : Termios)
    → ◌≡◌ {A = Option Termios} (some (record t { speed = n ∷ [] })) (some t')
    → record t { speed = n ∷ [] } ≡ t'
speed_only n t t' e = cc e

some_calls-IsLawful : IsLawful some_calls
some_calls-IsLawful = record {
  input_distinct = numbers_distinct input_number input_numbers;
  control_distinct = numbers_distinct control_number control_numbers;
  local_distinct = numbers_distinct local_number local_numbers;
  cs8_in_csize = λ b e. e;
  speed_keeps_iflag = λ n t t' e. ap (λ (x : Termios). x.c_iflag) (sym (speed_only n t t' e));
  speed_keeps_oflag = λ n t t' e. ap (λ (x : Termios). x.c_oflag) (sym (speed_only n t t' e));
  speed_keeps_lflag = λ n t t' e. ap (λ (x : Termios). x.c_lflag) (sym (speed_only n t t' e));
  speed_in_cbaud = λ n t t' b e away. ap (λ (x : Termios). x.c_cflag b) (sym (speed_only n t t' e));
}

-- A terminal as a shell leaves it: every flag is set.
abbrev pub shell_line : Termios
shell_line = record {
  c_iflag = λ b. true;
  c_oflag = λ b. true;
  c_cflag = λ b. true;
  c_lflag = λ b. true;
  speed = [];
}

abbrev pub set_line : Termios
set_line = record (set_flags some_calls shell_line) { speed = 115200 ∷ [] }

serial_conf_lem_example :
    (serial_conf some_calls shell_line ≡ ok set_line)
    × (trumpets_serial_conf some_calls shell_line ≡ ok set_line)
    × IsConfigured some_calls shell_line set_line
serial_conf_lem_example =
    serial_conf_lem some_calls some_calls-IsLawful shell_line set_line refl shell_line set_line refl
      refl refl

abbrev some_system : System some_calls
some_system = record {
  socket_calls = record {
    sun_path_size = 108;
    socket = some 3;
    unlink = no_entry;
    bind = true;
    listen = true;
    ignore_sigpipe = true;
  };
  open_device = λ path. some shell_line;
  pid_file_opens = λ path. true;
  time_first = some (5, 10);
  time_init = some (5, 20);
  time_last = some (6, 0);
}

abbrev some_settings : Settings
some_settings = record initial { fg = true; log_enable = true; log_level = 1 }

abbrev no_listener : Listener
no_listener = record { sock_path = []; sock = some 0; watched = none }

main_lem_example :
    (r : Running some_calls) × (w2 w' : World) × (main some_system
        (opt_foreground ∷ opt_verbose ∷ [])
        no_listener
        (at_start started)
      ≡ ok (main_loop r))
    × (r.settings ≡ some_settings)
    × (r.start_time ≡ 5000020)
    × (r.startup_time ≡ 6000000 - 5000010)
    × (r.listener.sock ≡ some 3)
    × (r.listener.watched ≡ none)
    × (timers r.world.calls ≡ (100, kill_token_timeout) ∷ timers started.calls)
    × (kill_token_timeout_fired r.world ≡ ok w2)
    × (timers w2.calls ≡ (50, send_reset_timeout) ∷ timers r.world.calls)
    × (reset_timer 5 w2 ≡ no_fuel)
    × (reset_timer 6 w2 ≡ ok w')
    × (timers w'.calls ≡ timers w2.calls)
    × (w'.enum.state ≡ enumerating)
    × (w'.tx_queue_0 ≡ start_up_commands)
    × (w'.tx_queue_1 ≡ [])
    × ((a : ℕ) → w'.device_types a ≡ reset_entry (started.device_types a) a)
unfolding set_options sricd.Daemon.get_time64
main_lem_example =
    main_lem some_calls some_system (opt_foreground ∷ opt_verbose ∷ []) some_settings no_listener 3
      shell_line set_line shell_line set_line started 5000010 5000020 6000000 refl
      (record {
        created = refl;
        nonzero = refl;
        fits = omega arith;
        removed = cc;
        bound = refl;
        listening = refl;
        unsignalled = refl;
      })
      (record { found = refl; tty = refl; read = refl; speed_set = refl; written = refl }) refl
      (record { first = refl; at_init = refl; last = refl }) (omega arith) (omega arith) refl
