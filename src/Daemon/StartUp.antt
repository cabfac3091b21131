-- ===== src/Daemon/StartUp.antt =====
-- sricd/sricd.c, sricd/init.c, sricd/ipc.c and sricd/sric-enum.c: from main to the first device.
use sricd.Base.{
  ◌∷◌, ℕ, ◌<◌, ◌≤◌, ◌+◌, ◌-◌, ◌%◌, ◌^◌, ◌==◌, ◌≡◌, ◌≢◌, refl, ap, ◌∙◌, true, false, List, [], ◌++◌,
  Option, none, some, arith, length, if◌then◌else◌,
}
use sricd.World.{
  World, Platform, enumerating, ok, no_fuel, kill_token_timeout, send_reset_timeout, ◌>>=◌, call,
  watch_serial_input,
}
use sricd.Terminal.{Termios, TermiosCalls}
use sricd.OutputQueue.{txq_init}
use sricd.Device.{device_reset}
use sricd.SricIf.Serial.{set_flags, serial_conf}
use sricd.SricIf.Init.{sric_if_init}
use sricd.SricEnum.{sric_enum_start, kill_token_timeout_fired}
use sricd.Device.Reset.{reset_entry, device_reset-entries}
use sricd.SricEnum.StartUp.{timers, reset_timer, start_up_commands, at_start, start_up_lem}
use sricd.Ipc.SetUp.{SocketCalls, Listener, ipc_init, unlink_failed}
use sricd.Daemon.{Opt, Settings, initial, set_options, get_time64, wlog_init}
use sricd.Daemon.Init.{System, Running, main_loop, device_init, pid_written, init, start, main}

-- The calls of the socket set-up succeed, and the path fits into its field.
pub record SocketsWork (os : SocketCalls) (path : List ℕ) (fd : ℕ) : Type 0 where
  pub created : os.socket ≡ some fd
  pub nonzero : (fd == 0) ≡ false
  pub fits : length path < os.sun_path_size
  pub removed : os.unlink ≢ unlink_failed
  pub bound : os.bind ≡ true
  pub listening : os.listen ≡ true
  pub unsignalled : os.ignore_sigpipe ≡ true

ipc_init_lem :
    (os : SocketCalls) (path : List ℕ) (fd : ℕ) (l : Listener)
    → SocketsWork os path fd
    → ipc_init os path l ≡ ok (record l { sock_path = path; sock = some fd })
unfolding ipc_init
ipc_init_lem os path fd l h = ground arith

-- So do the calls on the serial port: it is found as `t` says, and left as `line'`.
pub record PortWorks (T : TermiosCalls) (opened : Option (T.Line)) (line line' : T.Line)
    (t t' : Termios) : Type 0 where
  pub found : opened ≡ some line
  pub tty : T.isatty line ≡ true
  pub read : T.tcgetattr line ≡ some t
  pub speed_set : T.cfsetspeed 115200 (set_flags T t) ≡ some t'
  pub written : T.tcsetattr t' line ≡ some line'

elapsed : (n m : ℕ) → n ≤ m → m < 2 ^ 64 → (m + 2 ^ 64 - n) % 2 ^ 64 ≡ m - n
elapsed n m order fits = omega arith

-- And the clock can be read: the time before the options, in wlog_init and before the loop.
pub record ClockWorks {T : TermiosCalls} (os : System T) (time1 time time2 : ℕ) : Type 0 where
  pub first : get_time64 os.time_first ≡ ok time1
  pub at_init : get_time64 os.time_init ≡ ok time
  pub last : get_time64 os.time_last ≡ ok time2

module _ (T : TermiosCalls) ⦃env : Platform⦄ where
  sric_if_init_lem :
      (opened : Option (T.Line)) (line line' : T.Line) (t t' : Termios) (w : World)
      → PortWorks T opened line line' t t'
      → sric_if_init T opened w
        ≡ (sric_enum_start (call watch_serial_input w) >>= λ w'. ok (line', w'))
  unfolding sric_if_init serial_conf
  sric_if_init_lem opened line line' t t' w h =
      rw (h.found, h.tty, h.read, h.speed_set, h.written) refl

  -- The world that `init` hands to the enumeration.
  abbrev pub initialised : World → World
  initialised w = call watch_serial_input (device_init (txq_init w))

  initialised-at_start : (w : World) → initialised (at_start w) ≡ at_start (initialised w)
  unfolding device_reset txq_init
  initialised-at_start w = refl

  initialised_queues :
      (w : World) → ((initialised w).tx_queue_0 ≡ []) × ((initialised w).tx_queue_1 ≡ [])
  unfolding device_reset txq_init
  initialised_queues w = (refl, refl)

  initialised_devices : (w : World) → (initialised w).device_types ≡ (device_reset w).device_types
  unfolding device_reset txq_init
  initialised_devices w = refl

  timers-initialised : (w : World) → timers (initialised w).calls ≡ timers w.calls
  unfolding device_reset txq_init
  timers-initialised w = refl

  -- `sric_enum_start`, and what its timers do afterwards.
  timers_lem :
      (w : World)
      → (w1 w2 w' : World) × (sric_enum_start (initialised (at_start w)) ≡ ok w1)
        × (timers w1.calls ≡ (100, kill_token_timeout) ∷ timers w.calls)
        × (kill_token_timeout_fired w1 ≡ ok w2)
        × (timers w2.calls ≡ (50, send_reset_timeout) ∷ timers w1.calls)
        × (reset_timer 5 w2 ≡ no_fuel)
        × (reset_timer 6 w2 ≡ ok w')
        × (timers w'.calls ≡ timers w2.calls)
        × (w'.enum.state ≡ enumerating)
        × (w'.tx_queue_0 ≡ start_up_commands)
        × (w'.tx_queue_1 ≡ [])
        × (w'.device_types ≡ (device_reset w).device_types)
  timers_lem w =
      let (
        w1, w2, w', begun, first, killed, second, running, done, last, state, queue_0, queue_1, _,
        devices,
      ) =
        start_up_lem (initialised w) in
      let (empty_0, empty_1) = initialised_queues w in
      (
        w1,
        w2,
        w',
        ap sric_enum_start (initialised-at_start w) ∙ begun,
        first ∙ ap (λ ts. (100, kill_token_timeout) ∷ ts) (timers-initialised w),
        killed,
        second,
        running,
        done,
        last,
        state,
        queue_0 ∙ ap (λ q. q ++ start_up_commands) empty_0,
        queue_1 ∙ empty_1,
        devices ∙ initialised_devices w,
      )

  -- The start of the daemon, up to the first device. The options are accepted, every call of the
  -- system succeeds, no channel watches the socket before, and the clock is not set back while the
  -- daemon starts and stays below 2^64 microseconds. Then `main` gets to its loop with the settings
  -- that the options give, the time of wlog_init as the one that the log counts from, a start-up
  -- time that is the difference of the clock, and the socket open, where no channel watches it yet;
  -- one timer has been set, of 100 milliseconds, for the kill of the token; that, when it fires,
  -- sets one of 50 milliseconds, for the resets, and sets no other; and that, which no sooner than
  -- after six times returns FALSE, sets none. Then the state machine is in `S_ENUMERATING`, the
  -- first queue holds the commands of the start-up and nothing else, the second queue is empty, and
  -- the device table holds the broadcast entry at 0, the gateway at 1, no device at the addresses 2
  -- to 127, and what it held before behind them.
  pub main_lem :
      (os : System T) (opts : List Opt) (s : Settings) (l : Listener) (fd : ℕ) (line line' : T.Line)
      (t t' : Termios) (w : World) (time1 time time2 : ℕ)
      → set_options opts initial ≡ some s
      → SocketsWork os.socket_calls s.socket_path fd
      → PortWorks T (os.open_device s.sdev_path) line line' t t'
      → pid_written os s.pid_path ≡ true
      → ClockWorks os time1 time time2
      → time1 ≤ time2
      → time2 < 2 ^ 64
      → l.watched ≡ none
      → (r : Running T) × (w2 w' : World) × (main os opts l (at_start w) ≡ ok (main_loop r))
        × (r.settings ≡ s)
        × (r.start_time ≡ time)
        × (r.startup_time ≡ time2 - time1)
        × (r.listener.sock ≡ some fd)
        × (r.listener.watched ≡ none)
        × (timers r.world.calls ≡ (100, kill_token_timeout) ∷ timers w.calls)
        × (kill_token_timeout_fired r.world ≡ ok w2)
        × (timers w2.calls ≡ (50, send_reset_timeout) ∷ timers r.world.calls)
        × (reset_timer 5 w2 ≡ no_fuel)
        × (reset_timer 6 w2 ≡ ok w')
        × (timers w'.calls ≡ timers w2.calls)
        × (w'.enum.state ≡ enumerating)
        × (w'.tx_queue_0 ≡ start_up_commands)
        × (w'.tx_queue_1 ≡ [])
        × ((a : ℕ) → w'.device_types a ≡ reset_entry (w.device_types a) a)
  unfolding main start init wlog_init
  main_lem os opts s l fd line line' t t' w time1 time time2 given sockets port pid clock order fits
        unwatched =
      let (
        w1, w2, w', begun, first, killed, second, running, done, last, state, queue_0, queue_1,
        devices,
      ) =
        timers_lem w in
      (
        record {
          settings = s;
          listener = record l { sock_path = s.socket_path; sock = some fd };
          line = line';
          world = w1;
          background = if s.fg then false else true;
          start_time = time;
          startup_time = (time2 + 2 ^ 64 - time1) % 2 ^ 64;
        },
        w2,
        w',
        rw
            (
              clock.first,
              given,
              clock.at_init,
              ipc_init_lem os.socket_calls s.socket_path fd l sockets,
              sric_if_init_lem (os.open_device s.sdev_path) line line' t t'
                  (device_init (txq_init (at_start w))) port,
              begun,
              pid,
              clock.last,
            )
            refl,
        refl,
        refl,
        elapsed time1 time2 order fits,
        refl,
        unwatched,
        first,
        killed,
        second,
        running,
        done,
        last,
        state,
        queue_0,
        queue_1,
        λ a. ap (λ types. types a) devices ∙ (device_reset-entries w a).0,
      )
