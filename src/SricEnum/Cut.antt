-- ===== src/SricEnum/Cut.antt =====
-- sricd/sric-enum.c: of a frame, `sric_enum_rx` reads no more than the payload that it says it has.
use sricd.Base.{
  ℕ, ◌≡◌, ◌∙◌, ap, refl, not, Bool, Bool-cases, inl, inr, false, List, [], ◌∷◌, arith, ◌==◌, get_or,
  take,
}
use sricd.World.{World, Platform, PackedFrame, enumeration_done, Outcome, ok, ◌>>=◌}
use sricd.SricEnum.{state_eq, record_class, ack_received, frame_received, sric_enum_rx}

-- The frame without what stands behind its payload.
abbrev pub cut : PackedFrame → PackedFrame
cut f = record f { payload = take f.payload_len f.payload }

first_byte : (p : List ℕ) → get_or (take 1 p) 0 0 ≡ get_or p 0 0
first_byte [] = refl
first_byte (x ∷ p) = refl

module _ ⦃env : Platform⦄ where
  cut_one :
      (f : PackedFrame) (w : World) (p : List ℕ)
      → get_or p 0 0 ≡ get_or f.payload 0 0
      → frame_received (record f { payload = p }) w ≡ frame_received f w
  unfolding frame_received ack_received record_class
  cut_one f w p e = rw e refl

  cut_none :
      (f : PackedFrame) (w : World) (p : List ℕ)
      → (f.payload_len == 1) ≡ false
      → frame_received (record f { payload = p }) w ≡ frame_received f w
  unfolding frame_received ack_received
  cut_none f w p e = ground arith

  pub sric_enum_rx-cut : (f : PackedFrame) (w : World) → sric_enum_rx (cut f) w ≡ sric_enum_rx f w
  unfolding sric_enum_rx
  sric_enum_rx-cut f w = elim (Bool-cases (f.payload_len == 1)) [
    | inl one ↦
        let size : f.payload_len ≡ 1 = ground arith in
        let first = ap (λ n. get_or (take n f.payload) 0 0) size ∙ first_byte f.payload in
        ap classified (cut_one f w (take f.payload_len f.payload) first)
    | inr other ↦ ap classified (cut_none f w (take f.payload_len f.payload) other)
  ]
    where
      classified : Outcome World → Outcome (World × Bool)
      classified m = m >>= λ w'. ok (w', not (state_eq w'.enum.state enumeration_done))
