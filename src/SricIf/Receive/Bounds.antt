-- ===== src/SricIf/Receive/Bounds.antt =====
-- sricd/sric-if.c: `advance_rx` stays within its buffers and makes progress.
use sricd.Base.{
  ℕ, ◌+◌, ◌-◌, ◌≤◌, ◌<◌, ◌≡◌, refl, Bool, true, false, not, List, [], ◌∷◌, ◌++◌, arith, ◌==◌,
  Bool-cases, inl, inr, length, get_or, set, take, drop, overwrite, length-append, length-take,
  length-drop, length-set, length-overwrite, leb-true,
}
use sricd.World.{Interface, Outcome, ok, ◌>>=◌}
use sricd.Escape.{unescape}
use sricd.Escape.Laws.{unescape_bounds}
use sricd.SricIf.Receive.{
  rxbuf_size, unesc_size, shifted, rxbuf_shift, frame_start, rxbuf_shift_frame_start, unescape_more,
  begin_frame, resume, restarts, advance_rx,
}

-- The two receive buffers keep their sizes, and their positions lie within them.
pub record RxBounds (i : Interface) : Type 0 where
  pub rxbuf_length : length i.rxbuf ≡ rxbuf_size
  pub rxpos_le : i.rxpos ≤ rxbuf_size
  pub unesc_length : length i.unesc_rx ≡ unesc_size
  pub unesc_pos_le : i.unesc_pos ≤ unesc_size

-- The call returns, within the bounds; if it returns TRUE then it has consumed input, and it
-- touches the receive buffers only.
pub record Advances (i : Interface) (result : Outcome (Interface × Bool)) : Type 0 where
  pub next : Interface
  pub more : Bool
  pub returns : result ≡ ok (next, more)
  pub bounds : RxBounds next
  pub shrinks : next.rxpos ≤ i.rxpos
  pub consumes : more ≡ true → next.rxpos < i.rxpos
  pub rest : next ≡ record i {
    rxbuf = next.rxbuf;
    rxpos = next.rxpos;
    unesc_rx = next.unesc_rx;
    unesc_pos = next.unesc_pos;
  }

length-shifted :
    (n rxpos : ℕ) (buf : List ℕ)
    → n ≤ rxpos
    → rxpos ≤ length buf
    → length (shifted n rxpos buf) ≡ length buf
length-shifted n rxpos buf h k =
    length-overwrite (take (rxpos - n) (drop n buf)) buf
      (omega (arith, length-take (rxpos - n) (drop n buf), length-drop n buf))

pub length-spliced :
    (pos : ℕ) (out buf : List ℕ)
    → pos + length out ≤ length buf
    → length (take pos buf ++ overwrite out (drop pos buf)) ≡ length buf
length-spliced pos out buf h = omega (
  arith,
  length-append (take pos buf) (overwrite out (drop pos buf)),
  length-overwrite out (drop pos buf) (omega (arith, length-drop pos buf)),
  length-take pos buf,
  length-drop pos buf,
)

unescape_more-Advances : (i : Interface) → RxBounds i → Advances i (unescape_more i)
unfolding unescape_more rxbuf_shift
unescape_more-Advances i b =
    let r = unescape i.rxbuf i.rxpos (unesc_size - i.unesc_pos) in
    let limits = unescape_bounds i.rxbuf i.rxpos (unesc_size - i.unesc_pos) (omega arith) in
    record {
      next = record i {
        rxbuf = shifted r.spos i.rxpos i.rxbuf;
        rxpos = i.rxpos - r.spos;
        unesc_rx = take i.unesc_pos i.unesc_rx ++ overwrite r.out (drop i.unesc_pos i.unesc_rx);
        unesc_pos = i.unesc_pos + length r.out;
      };
      more = not (length r.out == 0);
      returns = rw (leb-true r.spos i.rxpos limits.0);
      bounds = record {
        rxbuf_length = omega (arith, length-shifted r.spos i.rxpos i.rxbuf);
        rxpos_le = omega arith;
        unesc_length = omega (arith, length-spliced i.unesc_pos r.out i.unesc_rx);
        unesc_pos_le = omega arith;
      };
      shrinks = omega arith;
      consumes = λ e. ground arith;
      rest = refl;
    }

-- A frame's first byte is taken over, and the rest of it unescaped.
begin_frame-Advances :
    (i : Interface) → RxBounds i → 0 < i.rxpos → Advances i (begin_frame i >>= unescape_more)
unfolding begin_frame rxbuf_shift
begin_frame-Advances i b pos =
    let i' = record i {
      unesc_rx = set i.unesc_rx 0 (get_or i.rxbuf 0 0);
      unesc_pos = 1;
      rxbuf = shifted 1 i.rxpos i.rxbuf;
      rxpos = i.rxpos - 1;
    } in
    let b' : RxBounds i' = record {
      rxbuf_length = omega (arith, length-shifted 1 i.rxpos i.rxbuf);
      rxpos_le = omega arith;
      unesc_length = omega (arith, length-set i.unesc_rx 0 (get_or i.rxbuf 0 0));
      unesc_pos_le = omega arith;
    } in
    let later = unescape_more-Advances i' b' in
    record {
      next = later.next;
      more = later.more;
      returns = rw (leb-true 1 i.rxpos pos) later.returns;
      bounds = later.bounds;
      shrinks = omega (arith, later.shrinks);
      consumes = λ e. omega (arith, later.consumes e);
      rest = later.rest;
    }

frame_start-le : (xs : List ℕ) → frame_start xs ≤ length xs
unfolding frame_start
frame_start-le [] = omega arith
frame_start-le (x ∷ xs) = ground (arith, frame_start-le xs)

resume-Advances : (i : Interface) → RxBounds i → Advances i (resume i)
unfolding resume rxbuf_shift_frame_start rxbuf_shift
resume-Advances i b = elim (Bool-cases (start == i.rxpos)) [
  | inl junk ↦ rw junk (record {
    next = record i { rxpos = 0 };
    more = false;
    returns = refl;
    bounds = record {
      rxbuf_length = b.rxbuf_length;
      rxpos_le = omega arith;
      unesc_length = b.unesc_length;
      unesc_pos_le = b.unesc_pos_le;
    };
    shrinks = omega arith;
    consumes = λ e. cc;
    rest = refl;
  })
  | inr found ↦
      let below : start < i.rxpos = ground (arith, start_le) in
      let later = begin_frame-Advances (aligned below) (aligned_bounds below) (omega arith) in
      rw (found, leb-true start i.rxpos (omega arith))
        (record {
          next = later.next;
          more = later.more;
          returns = later.returns;
          bounds = later.bounds;
          shrinks = omega (arith, later.shrinks);
          consumes = λ e. omega (arith, later.consumes e);
          rest = later.rest;
        })
]
  where
    start : ℕ
    start = frame_start (take i.rxpos i.rxbuf)

    start_le : start ≤ i.rxpos
    start_le = omega (arith, frame_start-le (take i.rxpos i.rxbuf), length-take i.rxpos i.rxbuf)

    aligned : start < i.rxpos → Interface
    aligned h = record i { rxbuf = shifted start i.rxpos i.rxbuf; rxpos = i.rxpos - start }

    aligned_bounds : (h : start < i.rxpos) → RxBounds (aligned h)
    aligned_bounds h = record {
      rxbuf_length = omega (arith, length-shifted start i.rxpos i.rxbuf);
      rxpos_le = omega arith;
      unesc_length = b.unesc_length;
      unesc_pos_le = b.unesc_pos_le;
    }

-- With its buffers in bounds, `advance_rx` returns: no assertion of `rxbuf_shift` fails. The
-- buffers stay in bounds, no input is made up, and where it returns TRUE it has consumed a byte.
pub advance_rx-Advances : (i : Interface) → RxBounds i → Advances i (advance_rx i)
unfolding advance_rx
advance_rx-Advances i b = elim (Bool-cases (restarts i)) [
  | inl restart ↦ rw restart (from_scratch (resume-Advances _ zeroed))
  | inr goes_on ↦ rw goes_on (elim (Bool-cases (i.unesc_pos == 0)) [
    | inl none_yet ↦ rw none_yet (resume-Advances i b)
    | inr some_yet ↦ rw some_yet (unescape_more-Advances i b)
  ])
]
  where
    zeroed : RxBounds (record i { unesc_pos = 0 })
    zeroed = record {
      rxbuf_length = b.rxbuf_length;
      rxpos_le = b.rxpos_le;
      unesc_length = b.unesc_length;
      unesc_pos_le = omega arith;
    }

    from_scratch :
        {r : Outcome (Interface × Bool)} → Advances (record i { unesc_pos = 0 }) r → Advances i r
    from_scratch a = record {
      next = a.next;
      more = a.more;
      returns = a.returns;
      bounds = a.bounds;
      shrinks = a.shrinks;
      consumes = a.consumes;
      rest = a.rest;
    }
