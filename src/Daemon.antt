-- ===== src/Daemon.antt =====
-- sricd/sricd.c and sricd/log.c: the options of the daemon, its signals, and what it logs.
pub mod Init
pub mod StartUp
pub mod Options
use sricd.Base.{
  ℕ, ◌+◌, ◌-◌, ◌/◌, ◌%◌, ◌^◌, Bool, true, false, ◌&&◌, not, List, [], ◌∷◌, ◌++◌, Option, none, some,
  ltb, if◌then◌else◌, ◌*◌,
}
use sricd.World.{Outcome, ok, aborted, ◌>>=◌}

-- A text is the list of its bytes.
abbrev pub default_socket_path : List ℕ
default_socket_path =
    47 ∷ 116 ∷ 109 ∷ 112 ∷ 47 ∷ 115 ∷ 114 ∷ 105 ∷ 99 ∷ 100 ∷ 46 ∷ 115 ∷ 111 ∷ 99 ∷ 107 ∷ []

abbrev pub default_serial_dev : List ℕ
default_serial_dev = 47 ∷ 100 ∷ 101 ∷ 118 ∷ 47 ∷ 115 ∷ 114 ∷ 105 ∷ 99 ∷ 45 ∷ 97 ∷ []

-- What a call of `getopt` returns, with `optarg`.
pub data Opt : Type 0 where
  opt_help opt_unknown opt_version opt_foreground opt_daemon : Opt
  opt_verbose opt_ignore : Opt
  opt_pid : List ℕ → Opt
  opt_socket : List ℕ → Opt
  opt_device : List ℕ → Opt

-- The statics of sricd.c and log.c that the options set, and `fg`.
pub record Settings : Type 0 where
  pub fg : Bool
  pub socket_path : List ℕ
  pub sdev_path : List ℕ
  pub pid_path : Option (List ℕ)
  pub ignore_sigterm : Bool
  pub log_enable : Bool
  pub log_level : ℕ

abbrev pub initial : Settings
initial = record {
  fg = false;
  socket_path = default_socket_path;
  sdev_path = default_serial_dev;
  pid_path = none;
  ignore_sigterm = false;
  log_enable = false;
  log_level = 0;
}

-- The body of the loop over the options; `none` is `exit(0)`.
unfoldable pub set_option : Opt → Settings → Option Settings
set_option opt_help s = none
set_option opt_unknown s = none
set_option opt_version s = none
set_option opt_foreground s = some (record s { fg = true })
set_option opt_daemon s = some (record s { fg = false })
set_option (opt_pid path) s = some (record s { pid_path = some path })
set_option opt_verbose s = some (record s { log_enable = true; log_level = s.log_level + 1 })
set_option (opt_socket path) s = some (record s { socket_path = path })
set_option (opt_device path) s = some (record s { sdev_path = path })
set_option opt_ignore s = some (record s { ignore_sigterm = true })

abbrev pub and_then {ℓ κ} : {A : Type ℓ} {B : Type κ} → Option A → (A → Option B) → Option B
and_then none f = none
and_then (some a) f = f a

-- The loop.
unfoldable pub set_options : List Opt → Settings → Option Settings
unfolding set_option
set_options [] s = some s
set_options (o ∷ os) s = and_then (set_option o s) (set_options os)

-- `none` is `exit(0)`.
unfoldable pub handle_sigterm : Settings → Option Settings
handle_sigterm s = if s.ignore_sigterm then some (record s { ignore_sigterm = false }) else none

-- The arguments of `execl` in `restart`, as `getopt` reads them.
unfoldable pub restart_options : Settings → List Opt
restart_options s =
    opt_foreground ∷ opt_socket s.socket_path ∷ (if s.log_enable then opt_verbose ∷ [] else [])

-- Whether `wlog` and `wlog_debug` write a line.
unfoldable pub wlog_writes : Settings → Bool
wlog_writes s = s.log_enable

unfoldable pub wlog_debug_writes : Settings → Bool
unfolding wlog_writes
wlog_debug_writes s = if ltb s.log_level 2 then false else wlog_writes s

-- The two numbers at the front of a line: seconds, and tenths of milliseconds.
unfoldable pub log_time : ℕ → ℕ → ℕ × ℕ
log_time start_time now =
    let t = (now + 2 ^ 64 - start_time) % 2 ^ 64 in (t / 1000000, t % 1000000 / 100)

-- What `gettimeofday` gives, seconds and microseconds, or `none` if it fails.
abbrev pub TimeOfDay : Type 0
TimeOfDay = Option (ℕ × ℕ)

unfoldable pub get_time64 : TimeOfDay → Outcome ℕ
get_time64 none = aborted
get_time64 (some (sec, usec)) = ok ((sec * 1000000 + usec) % 2 ^ 64)

-- The new `start_time`.
unfoldable pub wlog_init : TimeOfDay → Outcome ℕ
unfolding get_time64
wlog_init clock = get_time64 clock

-- The numbers in front of the line that is written, if one is.
unfoldable pub wlogv : TimeOfDay → ℕ → Settings → Outcome (Option (ℕ × ℕ))
unfolding get_time64 wlog_writes log_time
wlogv clock start_time s =
    if not (wlog_writes s)
    then ok none
    else (get_time64 clock >>= λ now. ok (some (log_time start_time now)))

unfoldable pub wlog : TimeOfDay → ℕ → Settings → Outcome (Option (ℕ × ℕ))
unfolding wlogv
wlog clock start_time s = wlogv clock start_time s

unfoldable pub wlog_debug : TimeOfDay → ℕ → Settings → Outcome (Option (ℕ × ℕ))
unfolding wlogv
wlog_debug clock start_time s = if ltb s.log_level 2 then ok none else wlogv clock start_time s
