-- ===== src/Protocol/Stream.antt =====
-- The connection between libsric/sric.c and sricd/ipc.c as a stream of bytes.
use sricd.Base.{
  ℕ, zero, suc, ◌≡◌, refl, List, [], ◌∷◌, ◌++◌, Option, none, some, take, drop, ◌==◌, if◌then◌else◌,
  length, false, arith, ==_refl, take-append, drop-append,
}
use sricd.World.{Effect, client_write}
use sricd.Ipc.{Input}
use sricd.Libsric.Core.{Context, send_command, answer_error, answered, read_data}

-- What the reads of the sizes given return, where the stream holds enough.
abbrev pub served : List ℕ → List ℕ → ℕ → Option (List ℕ)
served [] bytes k = none
served (n ∷ sizes) bytes zero = some (take n bytes)
served (n ∷ sizes) bytes (suc k) = served sizes (drop n bytes) k

-- A request that is read in full, in pieces of the sizes given.
abbrev pub request : List ℕ → List ℕ → Input
request sizes bytes = record { reads = served sizes bytes; memory = λ _. 0 }

-- The bytes that were written to a client, in order.
abbrev pub sent_to : ℕ → List Effect → List ℕ
sent_to fd [] = []
sent_to fd (client_write fd' bytes ∷ calls) =
    if fd' == fd then sent_to fd calls ++ bytes else sent_to fd calls
sent_to fd (_ ∷ calls) = sent_to fd calls

pub sent_to-write :
    (fd : ℕ) (bytes : List ℕ) (calls : List Effect)
    → sent_to fd (client_write fd bytes ∷ calls) ≡ sent_to fd calls ++ bytes
sent_to-write fd bytes calls = ground (arith, ==_refl fd)

-- A context whose reads and writes are not cut short: what the daemon sends, and what it was sent.
abbrev pub connected : List ℕ → List ℕ → Context → Context
connected incoming written ctx = record ctx {
  socket = record { incoming = incoming; written = written; read_limits = []; write_limits = [] };
}

pub send_command-connected :
    (bytes rest written : List ℕ) (answer : ℕ) (ctx : Context)
    → send_command bytes (connected (answer ∷ rest) written ctx)
      ≡ answered (answer_error answer) (connected rest (written ++ bytes) ctx)
unfolding send_command
send_command-connected bytes rest written answer ctx = rw (==_refl (length bytes)) refl

pub read_data-connected :
    (bytes rest written : List ℕ) (ctx : Context)
    → read_data (length bytes) (connected (bytes ++ rest) written ctx)
      ≡ (connected rest written ctx, bytes, false)
unfolding read_data
read_data-connected bytes rest written ctx =
    rw (take-append bytes rest, ==_refl (length bytes), drop-append bytes rest) refl
