-- ===== src/Escape/RoundTrip.antt =====
-- sricd/escape.c: what `escape_frame` writes is what `unescape` reads back.
use sricd.Base.{
  ◌%◌, ◌^◌, ℕ, zero, suc, ◌+◌, ◌≤◌, ◌<◌, ◌≡◌, ◌≢◌, ◌*◌, ◌⊎◌, take, overwrite, ◌∙◌, refl, true, List,
  [], ◌∷◌, ◌++◌, arith, length, length-append, append_assoc, append-nil, leb-false,
}
use sricd.Base.Int.{pos, short}
use sricd.Escape.{escape_frame, escape_byte, escape_loop, unescape_loop}

abbrev pub escape_bytes : List ℕ → List ℕ
escape_bytes [] = []
escape_bytes (x ∷ xs) = escape_byte x ++ escape_bytes xs

-- A list that is empty or begins with a framing byte.
abbrev pub IsBoundary : List ℕ → Type 0
IsBoundary [] = Unit {0}
IsBoundary (x ∷ xs) = (x ≡ 0x7E) ⊎ (x ≡ 0x8E)

pub escape_loop-escape_bytes :
    (maxlength : ℕ) (src out : List ℕ)
    → length out + length (escape_bytes src) < maxlength
    → escape_loop maxlength src out ≡ (out ++ escape_bytes src, true)
unfolding escape_loop
escape_loop-escape_bytes maxlength [] out h = rw append-nil
escape_loop-escape_bytes maxlength (x ∷ src) out h =
    rw
      (leb-false maxlength (length out + length (escape_byte x))
        (omega (arith, length-append (escape_byte x) (escape_bytes src))))
      (rw
        (escape_loop-escape_bytes maxlength src (out ++ escape_byte x) (
          omega (
            arith,
            length-append (escape_byte x) (escape_bytes src),
            length-append out (escape_byte x),
          )))
        (rw append_assoc))

unescape_loop-escape_byte :
    (x : ℕ) (rest : List ℕ) (room spos : ℕ) (out : List ℕ)
    → unescape_loop (escape_byte x ++ rest) (suc room) spos out
      ≡ unescape_loop rest room (spos + length (escape_byte x)) (out ++ x ∷ [])
unfolding unescape_loop escape_byte
unescape_loop-escape_byte x [] zero spos out = ground arith
unescape_loop-escape_byte x [] (suc room) spos out = ground arith
unescape_loop-escape_byte x (y ∷ rest) zero spos out = ground arith
unescape_loop-escape_byte x (y ∷ rest) (suc room) spos out = ground arith

unescape_loop-boundary :
    (rest : List ℕ) (room spos : ℕ) (out : List ℕ)
    → IsBoundary rest
    → unescape_loop rest room spos out ≡ record { spos = spos; out = out }
unfolding unescape_loop
unescape_loop-boundary [] room spos out e = refl
unescape_loop-boundary (x ∷ []) zero spos out e = refl
unescape_loop-boundary (x ∷ y ∷ r) zero spos out e = refl
unescape_loop-boundary (x ∷ []) (suc room) spos out e = ground arith
unescape_loop-boundary (x ∷ y ∷ r) (suc room) spos out e = ground arith

pub unescape_loop-escape_bytes :
    (bs rest : List ℕ) (room spos : ℕ) (out : List ℕ)
    → length bs ≤ room
    → IsBoundary rest
    → unescape_loop (escape_bytes bs ++ rest) room spos out
      ≡ record { spos = spos + length (escape_bytes bs); out = out ++ bs }
unescape_loop-escape_bytes [] rest room spos out h e =
    unescape_loop-boundary rest room spos out e ∙ ground (arith, append-nil out)
unescape_loop-escape_bytes (x ∷ bs) rest zero spos out h e = absurd (omega arith)
unescape_loop-escape_bytes (x ∷ bs) rest (suc room) spos out h e = rw append_assoc (
    unescape_loop-escape_byte x (escape_bytes bs ++ rest) room spos out
    ∙ unescape_loop-escape_bytes bs rest room (spos + length (escape_byte x)) (out ++ x ∷ [])
        (omega arith) e
    ∙ ground (arith, append_assoc out (x ∷ []) bs, length-append (escape_byte x) (escape_bytes bs)))

-- Between two framing bytes the escaped text holds no framing byte.
abbrev pub LacksFraming : List ℕ → Type 0
LacksFraming [] = Unit {0}
LacksFraming (x ∷ xs) = (x ≢ 0x7E) × (x ≢ 0x8E) × LacksFraming xs

LacksFraming-append : (xs ys : List ℕ) → LacksFraming xs → LacksFraming ys → LacksFraming (xs ++ ys)
LacksFraming-append [] ys hx hy = hy
LacksFraming-append (x ∷ xs) ys hx hy = (hx.0, hx.1, LacksFraming-append xs ys hx.2 hy)

escape_byte-LacksFraming : (x : ℕ) → LacksFraming (escape_byte x)
unfolding escape_byte
escape_byte-LacksFraming x = ground arith

pub escape_bytes-LacksFraming : (xs : List ℕ) → LacksFraming (escape_bytes xs)
escape_bytes-LacksFraming [] = tt
escape_bytes-LacksFraming (x ∷ xs) =
    LacksFraming-append (escape_byte x) (escape_bytes xs) (escape_byte-LacksFraming x)
      (escape_bytes-LacksFraming xs)

escape_byte_bounds : (x : ℕ) → (1 ≤ length (escape_byte x)) × (length (escape_byte x) ≤ 2)
unfolding escape_byte
escape_byte_bounds x = ground arith

-- Escaping at most doubles a text.
pub escape_bytes_bounds :
    (xs : List ℕ)
    → (length xs ≤ length (escape_bytes xs)) × (length (escape_bytes xs) ≤ 2 * length xs)
escape_bytes_bounds [] = omega arith
escape_bytes_bounds (x ∷ xs) = omega (
  arith,
  escape_byte_bounds x,
  escape_bytes_bounds xs,
  length-append (escape_byte x) (escape_bytes xs),
)

short_small : (n : ℕ) → n < 2 ^ 15 → short (n % 2 ^ 16) ≡ pos n
short_small n h = ground arith

-- With room for the escaped text, the loop does not stop early.
pub escape_frame_fits :
    (buf : List ℕ) (len maxlength : ℕ)
    → length (escape_bytes (take len buf)) < maxlength
    → length (escape_bytes (take len buf)) < 2 ^ 15
    → escape_frame buf len maxlength ≡ record {
      buffer = overwrite (escape_bytes (take len buf)) buf;
      result = pos (length (escape_bytes (take len buf)));
    }
unfolding escape_frame
escape_frame_fits buf len maxlength h small =
    rw
      (
        escape_loop-escape_bytes maxlength (take len buf) [] (omega arith),
        short_small (length (escape_bytes (take len buf))) small,
      )
      refl
