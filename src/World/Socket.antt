-- ===== src/World/Socket.antt =====
-- The socket of libsric/sric.c and the terminal of ostric/ostric.c: a stream in each direction.
use sricd.Base.{ℕ, Bool, false, List, [], ◌∷◌, ◌++◌, Option, none, some, ◌==◌, length, take, drop}

-- `incoming` is what there is to read, `written` what was written, in order. The
-- two lists say how many bytes the next calls of `read` and `write` take at most, or `none` for
-- -1; past their ends there is no such limit.
pub record Socket : Type 0 where
  pub incoming : List ℕ
  pub written : List ℕ
  pub read_limits : List (Option ℕ)
  pub write_limits : List (Option ℕ)

abbrev pub rest_of {ℓ} : {A : Type ℓ} → List A → List A
rest_of [] = []
rest_of (x ∷ xs) = xs

-- The bytes that a call takes of those given, or `none` for -1.
abbrev pub limited : List (Option ℕ) → List ℕ → Option (List ℕ)
limited [] bytes = some bytes
limited (none ∷ limits) bytes = none
limited (some n ∷ limits) bytes = some (take n bytes)

abbrev pub got : Option (List ℕ) → List ℕ
got none = []
got (some bytes) = bytes

-- `read` of `n` bytes, and `write`.
abbrev pub read_result : ℕ → Socket → Option (List ℕ)
read_result n s = limited s.read_limits (take n s.incoming)

abbrev pub after_read : ℕ → Socket → Socket
after_read n s = record s {
  incoming = drop (length (got (read_result n s))) s.incoming;
  read_limits = rest_of s.read_limits;
}

abbrev pub write_result : List ℕ → Socket → Option (List ℕ)
write_result bytes s = limited s.write_limits bytes

abbrev pub after_write : List ℕ → Socket → Socket
after_write bytes s = record s {
  written = s.written ++ got (write_result bytes s);
  write_limits = rest_of s.write_limits;
}

-- Whether a call took as many bytes as it was asked to.
abbrev pub took : Option (List ℕ) → ℕ → Bool
took none n = false
took (some bytes) n = length bytes == n
