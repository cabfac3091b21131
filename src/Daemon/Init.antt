-- ===== src/Daemon/Init.antt =====
-- sricd/init.c, and main of sricd/sricd.c.
use sricd.Base.{ℕ, ◌+◌, ◌-◌, ◌%◌, ◌^◌, Bool, true, false, List, Option, none, some, if◌then◌else◌}
use sricd.World.{World, Platform, Outcome, ok, exited, ◌>>=◌}
use sricd.Terminal.{TermiosCalls}
use sricd.OutputQueue.{txq_init}
use sricd.Device.{device_reset}
use sricd.SricIf.Init.{sric_if_init}
use sricd.Ipc.SetUp.{SocketCalls, Listener, ipc_init}
use sricd.Daemon.{Opt, Settings, initial, set_options, TimeOfDay, get_time64, wlog_init}

abbrev pub device_init : World → World
device_init w = device_reset w

-- What the operating system does for the daemon: the calls of the socket set-up, what `open` on a
-- path returns, whether a PID file can be opened, and what `gettimeofday` gives in `main` before
-- the options, in wlog_init, and in `main` before the loop.
pub record System (T : TermiosCalls) : Type 0 where
  pub socket_calls : SocketCalls
  pub open_device : List ℕ → Option (T.Line)
  pub pid_file_opens : List ℕ → Bool
  pub time_first : TimeOfDay
  pub time_init : TimeOfDay
  pub time_last : TimeOfDay

-- The daemon as a whole.
pub record Running (T : TermiosCalls) : Type 0 where
  pub settings : Settings
  pub listener : Listener
  pub line : T.Line
  pub world : World
  pub background : Bool
  pub start_time : ℕ
  pub startup_time : ℕ

-- How `main` ends before its loop, or that it gets there.
pub data MainEnd (T : TermiosCalls) : Type 0 where
  main_loop : Running T → MainEnd T
  returned_1 : MainEnd T

module _ {T : TermiosCalls} (os : System T) where
  -- Whether the PID file, if one is asked for, can be written.
  abbrev pub pid_written : Option (List ℕ) → Bool
  pid_written none = true
  pid_written (some path) = os.pid_file_opens path

module _ {T : TermiosCalls} (os : System T) ⦃env : Platform⦄ where
  unfoldable pub init : List ℕ → List ℕ → Listener → World → Outcome (ℕ × Listener × T.Line × World)
  unfolding ipc_init sric_if_init wlog_init
  init socket_path sdev_path l w = do
    start_time ← wlog_init os.time_init
    let cleared = device_init (txq_init w)
    l' ← ipc_init os.socket_calls socket_path l
    (line, w') ← sric_if_init T (os.open_device sdev_path) cleared
    ok (start_time, l', line, w')

  -- `main` behind the loop over the options, which began at `time1`.
  unfoldable pub start : ℕ → Settings → Listener → World → Outcome (MainEnd T)
  unfolding init get_time64
  start time1 s l w = do
    (start_time, l', line, w') ← init s.socket_path s.sdev_path l w
    if pid_written os s.pid_path
        then (get_time64 os.time_last >>= λ time2. ok (
            main_loop (record {
              settings = s;
              listener = l';
              line = line;
              world = w';
              background = if s.fg then false else true;
              start_time = start_time;
              startup_time = (time2 + 2 ^ 64 - time1) % 2 ^ 64;
            })))
        else ok returned_1

  abbrev started_with : ℕ → Option Settings → Listener → World → Outcome (MainEnd T)
  started_with time1 none l w = exited
  started_with time1 (some s) l w = start time1 s l w

  unfoldable pub main : List Opt → Listener → World → Outcome (MainEnd T)
  unfolding start set_options get_time64
  main opts l w =
      get_time64 os.time_first >>= λ time1. started_with time1 (set_options opts initial) l w
