-- ===== src/Ipc/SetUp.antt =====
-- sricd/ipc.c: the socket on which the clients connect.
use sricd.Base.{
  ℕ, ◌+◌, Bool, true, false, List, Option, none, some, leb, ◌==◌, if◌then◌else◌, length,
}
use sricd.World.{Outcome, ok, aborted, fault}

-- What `unlink` ends with.
pub data UnlinkResult : Type 0 where
  unlinked no_entry unlink_failed : UnlinkResult

-- What the calls of `ipc_boot` return, `none` and `false` where they fail, and the size of the
-- field `sun_path`.
pub record SocketCalls : Type 0 where
  pub sun_path_size : ℕ
  pub socket : Option ℕ
  pub unlink : UnlinkResult
  pub bind : Bool
  pub listen : Bool
  pub ignore_sigpipe : Bool

-- `sock`, with `none` for -1; and the socket that the channel `ipc_gio` stands for and watches, if
-- there is one.
pub record Listener : Type 0 where
  pub sock_path : List ℕ
  pub sock : Option ℕ
  pub watched : Option (Option ℕ)

-- `assert`, and `g_assert`.
abbrev pub asserted {ℓ} : {A : Type ℓ} → Bool → Outcome A → Outcome A
asserted true m = m
asserted false m = aborted

abbrev unlinked_or_absent : UnlinkResult → Bool
unlinked_or_absent unlink_failed = false
unlinked_or_absent _ = true

-- `assert(sock)`: a failed call, which returns -1, passes.
abbrev is_nonzero : Option ℕ → Bool
is_nonzero none = true
is_nonzero (some fd) = if fd == 0 then false else true

unfoldable pub ipc_boot : SocketCalls → Listener → Outcome Listener
ipc_boot os l = asserted (is_nonzero os.socket) (
    if leb (length l.sock_path + 1) os.sun_path_size
    then asserted (unlinked_or_absent os.unlink) (
        asserted os.bind
          (asserted os.listen (asserted os.ignore_sigpipe (ok (record l { sock = os.socket })))))
    else fault)

unfoldable pub ipc_init : SocketCalls → List ℕ → Listener → Outcome Listener
unfolding ipc_boot
ipc_init os path l = ipc_boot os (record l { sock_path = path })

unfoldable pub ipc_listen : Listener → Listener
ipc_listen l = record l { watched = some l.sock }

-- Letting go of the channel closes the socket and ends its watches; the callback returns FALSE.
unfoldable pub ipc_death : SocketCalls → Listener → Outcome Listener
unfolding ipc_boot
ipc_death os l = ipc_boot os (record l { watched = none })
