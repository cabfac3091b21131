-- ===== src/Escape.antt =====
-- sricd/escape.c: byte stuffing of SRIC frames.
pub mod RoundTrip
pub mod Laws
use sricd.Base.Int.{ℤ, negsuc, short}
use sricd.Base.{
  ◌%◌, ◌^◌, ℕ, zero, suc, ◌+◌, Bool, true, false, ◌||◌, List, [], ◌∷◌, ◌++◌, Option, none, some,
  bit_xor, ltb, leb, ◌==◌, if◌then◌else◌, length, take, overwrite,
}

-- What one round of the loop of `escape_frame` writes.
unfoldable pub escape_byte : ℕ → List ℕ
escape_byte x =
    if x == 0x7E
    then 0x7D ∷ 0x5E ∷ []
    else if x == 0x7D
    then 0x7D ∷ 0x5D ∷ []
    else if x == 0x8E
    then 0x7D ∷ bit_xor 0x8E 0x20 ∷ []
    else x ∷ []

-- The buffer after the call, and the value returned, an `int16_t`.
pub record Escaped : Type 0 where
  pub buffer : List ℕ
  pub result : ℤ

-- The loop over `src`. `out` holds the bytes written so far, so that `dest_index` is its length;
-- the flag says whether every `REQUIRE_SPACE` succeeded.
unfoldable pub escape_loop : ℕ → List ℕ → List ℕ → List ℕ × Bool
unfolding escape_byte
escape_loop maxlength [] out = (out, true)
escape_loop maxlength (x ∷ src) out =
    let rest = escape_loop maxlength src (out ++ escape_byte x) in
    if leb maxlength (length out + length (escape_byte x)) then (out, false) else rest

-- `data` and what of it is left after the loop; a failure copies the source back.
abbrev finish_escape : List ℕ → ℕ → List ℕ × Bool → Escaped
finish_escape buf len (out, true) = record {
  buffer = overwrite out buf;
  result = short (length out % 2 ^ 16);
}
finish_escape buf len (out, false) = record {
  buffer = overwrite (take len buf) (overwrite out buf);
  result = negsuc 0;
}

unfoldable pub escape_frame : List ℕ → ℕ → ℕ → Escaped
unfolding escape_loop
escape_frame buf len maxlength = finish_escape buf len (escape_loop maxlength (take len buf) [])

-- The position in the source after the call (the value returned), and the bytes written to
-- `dest`, whose number is `*dest_used`.
pub record Unescaped : Type 0 where
  pub spos : ℕ
  pub out : List ℕ

-- The loop over the bytes of `src` from `spos` on, with room for `room` more bytes in `dest`.
unfoldable pub unescape_loop : List ℕ → ℕ → ℕ → List ℕ → Unescaped
unescape_loop [] room spos out = record { spos = spos; out = out }
unescape_loop (x ∷ src) zero spos out = record { spos = spos; out = out }
unescape_loop (x ∷ []) (suc room) spos out =
    if x == 0x7D
    then record { spos = spos; out = out }
    else if x == 0x7E || x == 0x8E
    then record { spos = spos; out = out }
    else record { spos = spos + 1; out = out ++ x ∷ [] }
unescape_loop (x ∷ y ∷ src) (suc room) spos out =
    let escaped = unescape_loop src room (spos + 2) (out ++ bit_xor y 0x20 ∷ []) in
    let plain = unescape_loop (y ∷ src) room (spos + 1) (out ++ x ∷ []) in
    if x == 0x7D
    then escaped
    else if x == 0x7E || x == 0x8E
    then record { spos = spos; out = out }
    else plain

-- `srclen` and `destlen` are cut to a `uint8_t`; the positions stay below them.
unfoldable pub unescape : List ℕ → ℕ → ℕ → Unescaped
unfolding unescape_loop
unescape src srclen destlen = unescape_loop (take (srclen % 256) src) (destlen % 256) 0 []

-- What the escaped byte `y` stands for in `unescape_frame`.
unescaped_byte : ℕ → Option ℕ
unescaped_byte y = if y == 0x5E then some 0x7E else if y == 0x5D then some 0x7D else none

abbrev pub prepend : Option ℕ → Option (List ℕ) → Option (List ℕ)
prepend (some x) (some out) = some (x ∷ out)
prepend _ _ = none

-- `none` is the result false, otherwise the bytes written to the front of the buffer.
unfoldable pub unescape_frame : List ℕ → Option (List ℕ)
unfolding unescaped_byte
unescape_frame [] = some []
unescape_frame (x ∷ []) = if x == 0x7D then none else some (x ∷ [])
unescape_frame (x ∷ y ∷ src) =
    let escaped = prepend (unescaped_byte y) (unescape_frame src) in
    let plain = prepend (some x) (unescape_frame (y ∷ src)) in if x == 0x7D then escaped else plain
