-- ===== src/Escape/Laws.antt =====
-- sricd/escape.c: the contracts of `escape_frame`, `unescape` and `unescape_frame`.
use sricd.Base.{
  ◌%◌, bit_xor, ℕ, zero, suc, ◌+◌, ◌*◌, ◌≤◌, ◌<◌, ◌≡◌, ◌∙◌, refl, ap, Bool, false, List, [], ◌∷◌,
  ◌++◌, none, some, arith, length, length-append, append-nil, take, drop, overwrite, take-append,
  length-take, ◌==◌, ◌||◌, if◌then◌else◌, Bool-cases, inl, inr, leb,
}
use sricd.Base.Int.{pos, negsuc}
use sricd.Escape.{
  prepend, escape_byte, escape_loop, escape_frame, unescape_loop, unescape, unescape_frame,
}
use sricd.Escape.RoundTrip.{
  escape_bytes, IsBoundary, LacksFraming, escape_frame_fits, unescape_loop-escape_bytes,
  escape_bytes-LacksFraming, escape_bytes_bounds,
}

pub take_all : (xs : List ℕ) (n : ℕ) → length xs ≤ n → take n xs ≡ xs
take_all [] zero h = refl
take_all [] (suc n) h = refl
take_all (x ∷ xs) zero h = absurd (omega arith)
take_all (x ∷ xs) (suc n) h = ap (◌∷◌ x) (take_all xs n (omega arith))

byte_same : (n : ℕ) → n ≤ 255 → n % 256 ≡ n
byte_same n h = omega arith

-- `unescape` behind its two conversions, for a source of at most 255 bytes and as much room.
pub unescape-whole :
    (text : List ℕ) (room : ℕ)
    → length text ≤ 255
    → room ≤ 255
    → unescape text (length text) room ≡ unescape_loop text room 0 []
unfolding unescape
unescape-whole text room short narrow =
    rw
      (
        byte_same (length text) short,
        byte_same room narrow,
        take_all text (length text) (omega arith),
      )
      refl

-- Given room for twice the source, `escape_frame` succeeds: it writes a text without framing bytes
-- over the front of the buffer and returns its length, and `unescape`, reading that text up to
-- the end of its input or the next framing byte, returns its length and gives the source back.
-- What `unescape` can be given to read, and the room that it can be given, are at most 255 bytes.
pub unescape-escape_frame :
    (buf rest : List ℕ) (len maxlength room : ℕ)
    → 2 * len < maxlength
    → 2 * len + length rest ≤ 255
    → len ≤ room
    → room ≤ 255
    → IsBoundary rest
    → (out : List ℕ) × (escape_frame buf len maxlength
        ≡ record { buffer = overwrite out buf; result = pos (length out) })
      × LacksFraming out
      × (unescape (out ++ rest) (length (out ++ rest)) room
          ≡ record { spos = length out; out = take len buf })
unescape-escape_frame buf rest len maxlength room h short fits narrow e =
    let src = take len buf in
    let size = length-take len buf in
    let doubled = escape_bytes_bounds src in
    (
      escape_bytes src,
      escape_frame_fits buf len maxlength (omega (arith, doubled, size))
          (omega (arith, doubled, size)),
      escape_bytes-LacksFraming src,
      unescape-whole (escape_bytes src ++ rest) room
            (omega (arith, doubled, size, length-append (escape_bytes src) rest)) narrow
          ∙ unescape_loop-escape_bytes src rest room 0 [] (omega (arith, size)) e
          ∙ ground arith,
    )

escape_loop_overflows :
    (maxlength x : ℕ) (src out : List ℕ)
    → maxlength ≤ length out + length (escape_bytes (x ∷ src))
    → (written : List ℕ) × (escape_loop maxlength (x ∷ src) out ≡ (written, false))
unfolding escape_loop
escape_loop_overflows maxlength x [] out h = (out, ground (arith, append-nil (escape_byte x)))
escape_loop_overflows maxlength x (y ∷ src) out h =
    let deeper = escape_loop_overflows maxlength y src (out ++ escape_byte x) in
    elim (Bool-cases (leb maxlength (length out + length (escape_byte x)))) [
      | inl full ↦ (out, rw full)
      | inr more ↦ rw more (
          deeper (
            omega (
              arith,
              length-append out (escape_byte x),
              length-append (escape_byte x) (escape_bytes (y ∷ src)),
            )))
    ]

overwrite_front : (n : ℕ) (src xs : List ℕ) → length src ≡ n → take n (overwrite src xs) ≡ src
overwrite_front n src xs e = rw (← e) (take-append src (drop (length src) xs))

escape_loop_fails :
    (maxlength : ℕ) (src : List ℕ)
    → 0 < length src
    → maxlength ≤ length (escape_bytes src)
    → (written : List ℕ) × (escape_loop maxlength src [] ≡ (written, false))
escape_loop_fails maxlength [] p k = absurd (omega arith)
escape_loop_fails maxlength (x ∷ src) p k = escape_loop_overflows maxlength x src [] (omega arith)

-- Without room for the escaped text, `escape_frame` returns -1 and leaves the source bytes at the
-- front of the buffer as they were.
pub escape_frame_overflows :
    (buf : List ℕ) (len maxlength : ℕ)
    → 0 < len
    → len ≤ length buf
    → maxlength ≤ length (escape_bytes (take len buf))
    → ((escape_frame buf len maxlength).result ≡ negsuc 0)
      × (take len (escape_frame buf len maxlength).buffer ≡ take len buf)
unfolding escape_frame
escape_frame_overflows buf len maxlength above fits h =
    let (written, e) =
      escape_loop_fails maxlength (take len buf) (omega (arith, length-take len buf)) h in
    rw e (
      refl,
      overwrite_front len (take len buf) (overwrite written buf)
          (omega (arith, length-take len buf)),
    )

abbrev pub has_gateway_byte : List ℕ → Bool
has_gateway_byte [] = false
has_gateway_byte (x ∷ xs) = (x == 0x8E) || has_gateway_byte xs

unescape_frame-escape_byte :
    (x : ℕ) (rest : List ℕ)
    → unescape_frame (escape_byte x ++ rest)
      ≡ (if x == 0x8E then none else prepend (some x) (unescape_frame rest))
unfolding unescape_frame escape_byte
unescape_frame-escape_byte x [] = ground arith
unescape_frame-escape_byte x (y ∷ rest) = ground arith

-- `unescape_frame` undoes `escape_frame` exactly where the text holds no 0x8E; it refuses the
-- escape of any text that holds one.
pub unescape_frame-escape_bytes :
    (bs : List ℕ)
    → unescape_frame (escape_bytes bs) ≡ (if has_gateway_byte bs then none else some bs)
unescape_frame-escape_bytes [] = unfold unescape_frame in refl
unescape_frame-escape_bytes (x ∷ bs) =
    rw (unescape_frame-escape_byte x (escape_bytes bs), unescape_frame-escape_bytes bs)
      (ground arith)

-- `unescape` reads within the source and writes within the destination; it takes one or two bytes
-- for each byte written.
unescape_loop_bounds :
    (src : List ℕ) (room spos : ℕ) (out : List ℕ)
    → let r = unescape_loop src room spos out in
      (r.spos ≤ spos + length src)
      × (length r.out ≤ length out + room)
      × (length r.out + spos ≤ r.spos + length out)
      × (r.spos + 2 * length out ≤ spos + 2 * length r.out)
unfolding unescape_loop
unescape_loop_bounds [] room spos out = omega arith
unescape_loop_bounds (x ∷ []) zero spos out = omega arith
unescape_loop_bounds (x ∷ y ∷ src) zero spos out = omega arith
unescape_loop_bounds (x ∷ []) (suc room) spos out = ground (arith, length-append out (x ∷ []))
unescape_loop_bounds (x ∷ y ∷ src) (suc room) spos out = ground (
  arith,
  length-append out (x ∷ []),
  length-append out (bit_xor y 0x20 ∷ []),
  unescape_loop_bounds src room (spos + 2) (out ++ bit_xor y 0x20 ∷ []),
  unescape_loop_bounds (y ∷ src) room (spos + 1) (out ++ x ∷ []),
)

-- `unescape` consumes at most its source and writes at most `destlen` bytes; it consumes one or
-- two bytes for each byte that it writes.
pub unescape_bounds :
    (src : List ℕ) (srclen destlen : ℕ)
    → srclen ≤ length src
    → let r = unescape src srclen destlen in
      (r.spos ≤ srclen)
      × (length r.out ≤ destlen)
      × (length r.out ≤ r.spos)
      × (r.spos ≤ 2 * length r.out)
unfolding unescape
unescape_bounds src srclen destlen h = omega (
  arith,
  unescape_loop_bounds (take (srclen % 256) src) (destlen % 256) 0 [],
  length-take (srclen % 256) src,
)
