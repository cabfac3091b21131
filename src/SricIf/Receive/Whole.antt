-- ===== src/SricIf/Receive/Whole.antt =====
-- sricd/sric-if.c: what `rx` does when one whole frame arrives.
use mathlib.Core.Path.{subst}
use sricd.Base.{
  ℕ, suc, ◌+◌, ◌≤◌, ◌<◌, ◌≡◌, ◌∙◌, ap, sym, refl, Bool-cases, inl, inr, true, false, List, ◌∷◌,
  ◌++◌, arith, length, overwrite, length-overwrite, drop,
}
use sricd.World.{World, Platform, Interface, ok}
use sricd.Escape.RoundTrip.{escape_bytes, escape_bytes_bounds}
use sricd.SricIf.Receive.{
  is_framing_byte, resume, restarts, advance_rx, frame_complete, in_interface, proc_rx_frame,
  process_if_complete, rx_loop, read_bytes, rx,
}
use sricd.SricIf.Receive.Bounds.{RxBounds, advance_rx-Advances}
use sricd.SricIf.Link.{advance_rx_body, read_wire}

-- With nothing to read and nothing unescaped, nothing happens.
abbrev idle_input : Interface → Interface
idle_input i = record i { rxpos = 0; unesc_pos = 0 }

resume_idle : (i : Interface) → resume (idle_input i) ≡ ok (idle_input i, false)
unfolding resume
resume_idle i = refl

advance_rx_idle : (i : Interface) → advance_rx (idle_input i) ≡ ok (idle_input i, false)
unfolding advance_rx
advance_rx_idle i = elim (Bool-cases (restarts (idle_input i))) [
  | inl again ↦ rw again (resume_idle i)
  | inr on ↦ rw on (resume_idle i)
]

advanced-RxBounds : (i g : Interface) → RxBounds i → advance_rx i ≡ ok (g, true) → RxBounds g
advanced-RxBounds i g b e =
    let a = advance_rx-Advances i b in
    let same : a.next ≡ g = cc (a.returns, e) in subst RxBounds same a.bounds

module _ ⦃env : Platform⦄ where
  rx_loop_idle :
      (n : ℕ) (w : World)
      → rx_loop (suc n) (in_interface (idle_input w.iface) w)
        ≡ ok (in_interface (idle_input w.iface) w)
  unfolding rx_loop
  rx_loop_idle n w = rw (advance_rx_idle w.iface) refl

  -- The world once `advance_rx` has unescaped the frame, with what is left in the two buffers.
  abbrev pub unescaped : ℕ → List ℕ → List ℕ → List ℕ → World → World
  unescaped t body left more w =
      in_interface
        (record (w.iface) {
          unesc_rx = (t ∷ body) ++ more;
          unesc_pos = 1 + length body;
          rxbuf = left;
          rxpos = 0;
        })
        w

  -- `unesc_pos = 0`, behind `proc_rx_frame`.
  abbrev pub frame_done : World → World
  frame_done w = record w { iface = record (w.iface) { unesc_pos = 0 } }

  one_frame :
      (n : ℕ) (i g : Interface) (w v : World)
      → advance_rx i ≡ ok (g, true)
      → frame_complete g ≡ true
      → proc_rx_frame (in_interface g w) ≡ ok v
      → v.iface.rxpos ≡ 0
      → rx_loop (suc (suc n)) (in_interface i w) ≡ ok (frame_done v)
  unfolding rx_loop process_if_complete
  one_frame n i g w v advanced complete processed kept =
      let idle : frame_done v ≡ in_interface (idle_input v.iface) v =
        ap (λ p. in_interface (record (v.iface) { rxpos = p; unesc_pos = 0 }) v) kept in
      rw (advanced, complete, processed)
        (ap (rx_loop (suc n)) idle ∙ rx_loop_idle n v ∙ ap (λ u. ok u) (sym idle))

  -- A whole frame that arrives in one piece, with nothing left to read before it, is processed, and
  -- then `rx` returns.
  pub rx_whole :
      (t : ℕ) (body : List ℕ) (w : World)
      → is_framing_byte t ≡ true
      → 0 < length body
      → length body ≤ 69
      → RxBounds w.iface
      → w.iface.rxpos ≡ 0
      → (left more : List ℕ) × RxBounds (unescaped t body left more w).iface
        × ((v : World)
            → frame_complete (unescaped t body left more w).iface ≡ true
            → proc_rx_frame (unescaped t body left more w) ≡ ok v
            → v.iface.rxpos ≡ 0
            → rx (read_bytes (t ∷ escape_bytes body)) w ≡ ok (frame_done v))
  unfolding rx
  rx_whole t body w framing pos fits b e =
      let wire = t ∷ escape_bytes body in
      let bounds = escape_bytes_bounds body in
      let (left, more, got) =
        advance_rx_body t body (drop (length wire) w.iface.rxbuf) w.iface.unesc_rx w.iface framing
          pos fits b.unesc_length in
      let fuel : length wire + 1 ≡ suc (suc (length (escape_bytes body))) = omega arith in
      let read : Interface = record (w.iface) {
        rxbuf = overwrite wire w.iface.rxbuf;
        rxpos = length wire;
      } in
      let before : RxBounds read = record {
        rxbuf_length = omega (arith, length-overwrite wire w.iface.rxbuf, b.rxbuf_length);
        rxpos_le = omega arith;
        unesc_length = b.unesc_length;
        unesc_pos_le = b.unesc_pos_le;
      } in
      (
        left,
        more,
        advanced-RxBounds read (unescaped t body left more w).iface before got,
        λ v complete processed kept.
            rw (read_wire wire w.iface (omega arith) (omega arith) e, fuel)
              (one_frame (length (escape_bytes body)) _ _ w v got complete processed kept),
      )
