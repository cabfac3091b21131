-- ===== src/SricEnum/Steps.antt =====
-- sricd/sric-enum.c: the answers of a bus, and the step that each makes the state machine take.
use sricd.Base.{
  ℕ, ◌+◌, ◌-◌, ◌%◌, ◌≤◌, ◌<◌, ◌≡◌, ◌≢◌, Bool, true, false, [], ◌∷◌, arith, ◌==◌, ==_refl, leb-false,
}
use sricd.World.{
  World, Platform, PackedFrame, EnumState, enumerating, setting_addr, setting_gw_addr,
  advancing_token, fetching_classes, enumeration_done, ok, update,
}
use sricd.SricEnum.{
  add_devices, sric_enum_fsm, send_address, send_tok_advance, send_addr_info_req, gateway_command,
  addr_info_received, record_class, frame_received, ack_received, sric_enum_rx, low_bits, set_state,
}
use sricd.OutputQueue.{txq_push, pri_0}
use sricd.SricIf.Ready.{sric_if_tx_ready}

-- The answers of a bus, all addressed to the gateway with the acknowledgement bit: whether the
-- token is back, a bare acknowledgement from `a`, and the class of the device at `a`.
abbrev pub token_answer : ℕ → PackedFrame
token_answer back = record {
  dest_address = 0x81;
  source_address = 1;
  payload_len = 1;
  payload = back ∷ [];
}

abbrev pub bare_ack : ℕ → PackedFrame
bare_ack a = record { dest_address = 0x81; source_address = a; payload_len = 0; payload = [] }

abbrev pub class_answer : ℕ → ℕ → PackedFrame
class_answer a c = record {
  dest_address = 0x81;
  source_address = a;
  payload_len = 1;
  payload = c ∷ [];
}

-- The world `w`, with the state machine in a state and `a` for the next address.
abbrev pub at_state : EnumState → ℕ → World → World
at_state s a w = record w { enum = record (w.enum) { state = s; current_next_address = a } }

-- The world `w` while classes are fetched: `n` is the next address, `k` the next to be asked, and
-- `classes` and `replies` hold what was answered.
abbrev pub fetching : ℕ → ℕ → (ℕ → ℕ) → (ℕ → Bool) → World → World
fetching n k classes replies w = record w {
  enum = record (w.enum) {
    state = fetching_classes;
    current_next_address = n;
    current_addr_info_addr = k;
    device_classes = classes;
    addr_info_replies = replies;
  };
}

module _ ⦃env : Platform⦄ where
  pub device_present_step :
      (a : ℕ) (w : World)
      → a < 128
      → sric_enum_rx (token_answer 0) (at_state enumerating a w)
        ≡ ok (at_state setting_addr a (send_address a w), true)
  unfolding sric_enum_rx frame_received sric_enum_fsm send_address txq_push sric_if_tx_ready
  device_present_step a w h = rw (leb-false 128 a h)

  pub token_back_step :
      (a : ℕ) (w : World)
      → a < 128
      → sric_enum_rx (token_answer 1) (at_state enumerating a w)
        ≡ ok (at_state setting_gw_addr a (send_address a w), true)
  unfolding sric_enum_rx frame_received sric_enum_fsm send_address txq_push sric_if_tx_ready
  token_back_step a w h = rw (leb-false 128 a h)

  low_bits_same : (a : ℕ) → a < 128 → low_bits a ≡ a
  low_bits_same a h = omega arith

  pub address_taken_step :
      (a : ℕ) (w : World)
      → a < 128
      → sric_enum_rx (bare_ack a) (at_state setting_addr a w)
        ≡ ok (at_state advancing_token a (send_tok_advance a w), true)
  unfolding sric_enum_rx frame_received ack_received sric_enum_fsm send_tok_advance txq_push
      sric_if_tx_ready
  address_taken_step a w h = rw (low_bits_same a h, ==_refl a)

  pub token_advanced_step :
      (a : ℕ) (w : World)
      → a < 128
      → sric_enum_rx (bare_ack a) (at_state advancing_token a w)
        ≡ ok (at_state enumerating (a + 1) (txq_push (gateway_command (2 ∷ [])) pri_0 w), true)
  unfolding sric_enum_rx frame_received ack_received sric_enum_fsm txq_push sric_if_tx_ready
  token_advanced_step a w h =
      let small : (a + 1) % 256 ≡ a + 1 = omega arith in rw (low_bits_same a h, ==_refl a, small)

  -- The frames that follow when the gateway has its address.
  abbrev pub fetch_frames : World → World
  fetch_frames w =
      send_addr_info_req 2 (
        txq_push (gateway_command (3 ∷ [])) pri_0 (txq_push (gateway_command (0 ∷ 1 ∷ [])) pri_0 w))

  pub gateway_addressed_step :
      (a : ℕ) (w : World)
      → a < 128
      → sric_enum_rx (bare_ack a) (at_state setting_gw_addr a w)
        ≡ ok (fetching (a + 1) 3 w.enum.device_classes (λ _. false) (fetch_frames w), true)
  unfolding sric_enum_rx frame_received ack_received sric_enum_fsm send_addr_info_req txq_push
      sric_if_tx_ready
  gateway_addressed_step a w h =
      let small : (a + 1) % 256 ≡ a + 1 = omega arith in rw (low_bits_same a h, ==_refl a, small)

  other_address : (d n : ℕ) → d ≢ n → (d == n) ≡ false
  other_address d n h = ground arith

  pub class_step :
      (n k d c : ℕ) (classes : ℕ → ℕ) (replies : ℕ → Bool) (w : World)
      → d < 128
      → d ≢ n
      → k < n
      → n ≤ 128
      → sric_enum_rx (class_answer d c) (fetching n k classes replies w)
        ≡ ok (
          fetching n (k + 1) (update classes d c) (update replies d true) (send_addr_info_req k w),
          true,
        )
  unfolding sric_enum_rx frame_received ack_received sric_enum_fsm record_class addr_info_received
      send_addr_info_req txq_push sric_if_tx_ready
  class_step n k d c classes replies w h other more small =
      let next : (k + 1) % 256 ≡ k + 1 = omega arith in
      let unfinished : k ≢ n = omega arith in
      rw (low_bits_same d h, other_address d n other, other_address k n unfinished, next)

  pub last_class_step :
      (n d c : ℕ) (classes : ℕ → ℕ) (replies : ℕ → Bool) (w : World)
      → d < 128
      → d ≢ n
      → sric_enum_rx (class_answer d c) (fetching n n classes replies w)
        ≡ ok (
          set_state enumeration_done
              (add_devices (n - 2) 2 (fetching n n (update classes d c) (update replies d true) w)),
          false,
        )
  unfolding sric_enum_rx frame_received ack_received sric_enum_fsm record_class addr_info_received
  last_class_step n d c classes replies w h other =
      rw (low_bits_same d h, other_address d n other, ==_refl n)
