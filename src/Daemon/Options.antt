-- ===== src/Daemon/Options.antt =====
-- sricd/sricd.c and sricd/log.c: how the options decide what is logged, and what a restart keeps.
use sricd.Base.{
  ℕ, suc, ◌+◌, ◌≡◌, sym, ap, refl, true, false, List, [], ◌∷◌, none, some, arith, ltb, leb,
  leb-true, if◌then◌else◌, Bool-cases, inl, inr,
}
use sricd.Daemon.{
  Opt, opt_help, opt_unknown, opt_version, opt_foreground, opt_daemon, opt_pid, opt_verbose,
  opt_socket, opt_device, opt_ignore, Settings, initial, default_serial_dev, set_option,
  set_options, restart_options, handle_sigterm, wlog_writes, wlog_debug_writes,
}

-- How often `-v` is given.
abbrev pub verbosity : List Opt → ℕ
verbosity [] = 0
verbosity (opt_verbose ∷ os) = suc (verbosity os)
verbosity (_ ∷ os) = verbosity os

-- Logging is on exactly if the level is above 0.
pub record LogsFrom (k : ℕ) (s : Settings) : Type 0 where
  pub level : s.log_level ≡ k
  pub enabled : s.log_enable ≡ leb 1 k

set_options-LogsFrom :
    (os : List Opt) (k : ℕ) (s s' : Settings)
    → LogsFrom k s
    → set_options os s ≡ some s'
    → LogsFrom (k + verbosity os) s'
unfolding set_options set_option
set_options-LogsFrom [] k s s' l e =
    let size : k + 0 ≡ k = omega arith in let same : s ≡ s' = cc e in rw (size, sym same) l
set_options-LogsFrom (opt_help ∷ os) k s s' l e = absurd (cc e)
set_options-LogsFrom (opt_unknown ∷ os) k s s' l e = absurd (cc e)
set_options-LogsFrom (opt_version ∷ os) k s s' l e = absurd (cc e)
set_options-LogsFrom (opt_verbose ∷ os) k s s' l e =
    let size : k + suc (verbosity os) ≡ k + 1 + verbosity os = omega arith in
    rw size (
      set_options-LogsFrom os (k + 1) (record s { log_enable = true; log_level = s.log_level + 1 })
        s'
        (record {
          level = ap (λ n. n + 1) l.level;
          enabled = sym (leb-true 1 (k + 1) (omega arith));
        })
        e)
set_options-LogsFrom (opt_foreground ∷ os) k s s' l e =
    set_options-LogsFrom os k (record s { fg = true }) s'
      (record { level = l.level; enabled = l.enabled }) e
set_options-LogsFrom (opt_daemon ∷ os) k s s' l e =
    set_options-LogsFrom os k (record s { fg = false }) s'
      (record { level = l.level; enabled = l.enabled }) e
set_options-LogsFrom (opt_ignore ∷ os) k s s' l e =
    set_options-LogsFrom os k (record s { ignore_sigterm = true }) s'
      (record { level = l.level; enabled = l.enabled }) e
set_options-LogsFrom (opt_pid path ∷ os) k s s' l e =
    set_options-LogsFrom os k (record s { pid_path = some path }) s'
      (record { level = l.level; enabled = l.enabled }) e
set_options-LogsFrom (opt_socket path ∷ os) k s s' l e =
    set_options-LogsFrom os k (record s { socket_path = path }) s'
      (record { level = l.level; enabled = l.enabled }) e
set_options-LogsFrom (opt_device path ∷ os) k s s' l e =
    set_options-LogsFrom os k (record s { sdev_path = path }) s'
      (record { level = l.level; enabled = l.enabled }) e

at_level : (v : ℕ) → (if ltb v 2 then false else leb 1 v) ≡ leb 2 v
at_level v = ground arith

-- The daemon has come up with the options given. Then `wlog` writes its line exactly if `-v` was
-- among them, and `wlog_debug` exactly if it was so at least twice.
pub set_options-wlog :
    (os : List Opt) (s : Settings)
    → set_options os initial ≡ some s
    → (wlog_writes s ≡ leb 1 (verbosity os)) × (wlog_debug_writes s ≡ leb 2 (verbosity os))
unfolding wlog_writes wlog_debug_writes
set_options-wlog os s e =
    let v = verbosity os in
    let l = set_options-LogsFrom os 0 initial s (record { level = refl; enabled = refl }) e in
    let size : 0 + v ≡ v = omega arith in
    let level = rw size at l.level in
    let enabled = rw size at l.enabled in (enabled, rw (level, enabled) (at_level v))

-- A restart of the daemon, whatever its settings are: the new one comes up in the foreground on the
-- same socket and logs exactly if the old one did, but it writes no line of `wlog_debug`, opens the
-- default serial port, writes no PID file and dies of the first SIGTERM.
pub set_options-restart_options :
    (s : Settings)
    → (s' : Settings) × (set_options (restart_options s) initial ≡ some s')
      × (s'.fg ≡ true)
      × (s'.socket_path ≡ s.socket_path)
      × (wlog_writes s' ≡ wlog_writes s)
      × (wlog_debug_writes s' ≡ false)
      × (s'.sdev_path ≡ default_serial_dev)
      × (s'.pid_path ≡ none)
      × (handle_sigterm s' ≡ none)
unfolding set_options set_option restart_options wlog_writes wlog_debug_writes handle_sigterm
set_options-restart_options s = elim (Bool-cases s.log_enable) [
  | inl on ↦ rw on (
    record initial { fg = true; socket_path = s.socket_path; log_enable = true; log_level = 1 },
    refl,
    refl,
    refl,
    refl,
    refl,
    refl,
    refl,
    refl,
  )
  | inr off ↦ rw off (
    record initial { fg = true; socket_path = s.socket_path },
    refl,
    refl,
    refl,
    refl,
    refl,
    refl,
    refl,
    refl,
  )
]
