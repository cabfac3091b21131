-- ===== src/SricEnum.antt =====
-- sricd/sric-enum.c: the state machine that gives the devices of the bus their addresses.
pub mod Commands
pub mod Footprint
pub mod Steps
pub mod Rounds
pub mod Session
pub mod StartUp
pub mod Invariant
pub mod Cut
unfoldable pub use Commands.*
use sricd.Base.{
  ℕ, zero, suc, ◌+◌, ◌-◌, ◌*◌, ◌%◌, Bool, true, false, not, ◌&&◌, ◌||◌, List, [], ◌∷◌, ltb, leb,
  ◌==◌, if◌then◌else◌, length, get_or,
}
use sricd.World.{
  World, Platform, TxFrame, PackedFrame, FrameType, frame_sric, frame_gw_conf, Tag, null,
  bad_enum_tag, Enumeration, EnumState, idle, killing_token, resetting, enumerating, setting_addr,
  setting_gw_addr, advancing_token, fetching_classes, enumeration_done, kill_token_timeout,
  send_reset_timeout, timeout_add, Outcome, ok, exited, aborted, ◌>>=◌, update, call,
}
use sricd.OutputQueue.{pri_0, txq_push}
use sricd.Device.{device_add, device_high_address}

-- `enum_event_t`.
pub data EnumEvent : Type 0 where
  start_enum flush_done token_catch_timeout bus_reset dev_present new_dev_ack : EnumEvent
  tok_at_gw addr_info_ack : EnumEvent

abbrev pub set_state : EnumState → World → World
set_state s w = record w { enum = record (w.enum) { state = s } }

-- A post-increment of the two `uint8_t` counters.
abbrev pub next_address_incremented : World → World
next_address_incremented w = record w {
  enum = record (w.enum) { current_next_address = (w.enum.current_next_address + 1) % 256 };
}

abbrev pub addr_info_incremented : World → World
addr_info_incremented w = record w {
  enum = record (w.enum) { current_addr_info_addr = (w.enum.current_addr_info_addr + 1) % 256 };
}

-- The loop that registers the devices, with `left` rounds left.
unfoldable pub add_devices : ℕ → ℕ → World → World
unfolding device_add
add_devices zero i w = w
add_devices (suc left) i w = add_devices left (i + 1) (device_add i (w.enum.device_classes i) w)

module _ ⦃env : Platform⦄ where
  unfoldable pub send_addr_info_req_next : World → World
  unfolding send_addr_info_req
  send_addr_info_req_next w =
      addr_info_incremented (send_addr_info_req w.enum.current_addr_info_addr w)

  -- The case `S_ENUMERATING`; `then` is the state that follows.
  unfoldable pub assign_address : EnumState → World → Outcome World
  unfolding send_address
  assign_address following w =
      if leb device_high_address w.enum.current_next_address
      then exited
      else ok (set_state following (send_address w.enum.current_next_address w))

  -- The case `S_SETTING_GW_ADDR`.
  unfoldable pub fetch_classes : World → Outcome World
  unfolding gw_cmd_use_token gw_cmd_gen_token send_addr_info_req_next
  fetch_classes w = do
    let w1 = set_state fetching_classes (next_address_incremented w)
    let w2 = record w1 {
      enum = record (w1.enum) { addr_info_replies = λ _. false; current_addr_info_addr = 2 };
    }
    w3 ← gw_cmd_use_token true w2
    w4 ← gw_cmd_gen_token w3
    ok (send_addr_info_req_next w4)

  -- The case `S_FETCHING_CLASSES`.
  unfoldable pub addr_info_received : World → World
  unfolding send_addr_info_req_next add_devices
  addr_info_received w =
      if w.enum.current_addr_info_addr == w.enum.current_next_address
      then set_state enumeration_done (add_devices (w.enum.current_next_address - 2) 2 w)
      else send_addr_info_req_next w

  -- The `switch` of `sric_enum_fsm`; the last clause stands for the events that a state ignores.
  unfoldable pub dispatch : EnumState → EnumEvent → World → Outcome World
  unfolding send_tok_advance gw_cmd_req_token gw_cmd_use_token gw_cmd_gen_token gw_cmd_have_token
      assign_address fetch_classes addr_info_received
  dispatch idle start_enum w = do
    w1 ← gw_cmd_req_token (send_tok_advance 0 (send_tok_advance 0 w))
    ok (set_state killing_token (call (timeout_add 100 kill_token_timeout) w1))
  dispatch killing_token token_catch_timeout w = do
    w1 ← gw_cmd_use_token false w
    ok (set_state resetting (call (timeout_add 50 send_reset_timeout) w1))
  dispatch resetting bus_reset w = do
    w1 ← gw_cmd_gen_token w
    w2 ← gw_cmd_req_token w1
    w3 ← gw_cmd_have_token w2
    ok (set_state enumerating w3)
  dispatch enumerating tok_at_gw w = assign_address setting_gw_addr w
  dispatch enumerating dev_present w = assign_address setting_addr w
  dispatch setting_gw_addr new_dev_ack w = fetch_classes w
  dispatch setting_addr new_dev_ack w =
      ok (set_state advancing_token (send_tok_advance w.enum.current_next_address w))
  dispatch advancing_token new_dev_ack w = do
    w1 ← gw_cmd_have_token (next_address_incremented w)
    ok (set_state enumerating w1)
  dispatch fetching_classes addr_info_ack w = ok (addr_info_received w)
  dispatch _ _ w = ok w

  unfoldable pub sric_enum_fsm : EnumEvent → World → Outcome World
  unfolding dispatch
  sric_enum_fsm ev w = dispatch w.enum.state ev w

  unfoldable pub sric_enum_start : World → Outcome World
  unfolding sric_enum_fsm
  sric_enum_start w = sric_enum_fsm start_enum w

  -- The callback returns FALSE.
  unfoldable pub kill_token_timeout_fired : World → Outcome World
  unfolding sric_enum_fsm
  kill_token_timeout_fired w = sric_enum_fsm token_catch_timeout w

  -- The flag is the value returned: whether the timer goes on.
  unfoldable pub send_reset_timeout_fired : World → Outcome (World × Bool)
  unfolding sric_enum_fsm send_reset
  send_reset_timeout_fired w =
      let count = (w.enum.reset_count + 1) % 256 in
      let counted = record w { enum = record (w.enum) { reset_count = count } } in
      if ltb 5 count
      then (sric_enum_fsm bus_reset counted >>= λ w'. ok (w', false))
      else ok (send_reset counted, true)

-- The bit `0x80` of a byte, and the byte without it.
abbrev pub has_ack_bit : ℕ → Bool
has_ack_bit x = leb 0x80 x

abbrev pub low_bits : ℕ → ℕ
low_bits x = x % 0x80

abbrev pub state_eq : EnumState → EnumState → Bool
state_eq idle idle = true
state_eq killing_token killing_token = true
state_eq resetting resetting = true
state_eq enumerating enumerating = true
state_eq setting_addr setting_addr = true
state_eq setting_gw_addr setting_gw_addr = true
state_eq advancing_token advancing_token = true
state_eq fetching_classes fetching_classes = true
state_eq enumeration_done enumeration_done = true
state_eq _ _ = false

-- The tests of `sric_enum_rx`: for an answer to HAVE_TOKEN, for an acknowledgement of the newest
-- device, and for an answer to ADDR_INFO.
abbrev pub answers_have_token : PackedFrame → World → Bool
answers_have_token f w =
    state_eq w.enum.state enumerating && (f.payload_len == 1) && has_ack_bit f.dest_address

abbrev pub comes_from_newest : PackedFrame → World → Bool
comes_from_newest f w =
    (low_bits f.source_address == w.enum.current_next_address) && has_ack_bit f.dest_address

abbrev pub answers_addr_info : PackedFrame → World → Bool
answers_addr_info f w =
    has_ack_bit f.dest_address && state_eq w.enum.state fetching_classes && (f.payload_len == 1)

module _ ⦃env : Platform⦄ where
  unfoldable pub record_class : PackedFrame → World → World
  record_class f w =
      let device = low_bits f.source_address in
      record w {
        enum = record (w.enum) {
          addr_info_replies = update w.enum.addr_info_replies device true;
          device_classes = update w.enum.device_classes device (get_or f.payload 0 0);
        };
      }

  -- The branch of `sric_enum_rx` for a frame that is no answer to HAVE_TOKEN.
  unfoldable pub ack_received : PackedFrame → World → Outcome World
  ack_received f w =
      if comes_from_newest f w
      then sric_enum_fsm new_dev_ack w
      else if answers_addr_info f w
      then sric_enum_fsm addr_info_ack (record_class f w)
      else ok w

  -- What `sric_enum_rx` does to the state machine.
  unfoldable pub frame_received : PackedFrame → World → Outcome World
  frame_received f w =
      if answers_have_token f w
      then (if get_or f.payload 0 0 == 0
          then sric_enum_fsm dev_present w
          else sric_enum_fsm tok_at_gw w)
      else if not (state_eq w.enum.state idle)
      then ack_received f w
      else ok w

  -- The flag is the value returned: whether the enumeration goes on.
  unfoldable pub sric_enum_rx : PackedFrame → World → Outcome (World × Bool)
  sric_enum_rx f w = do
    w' ← frame_received f w
    ok (w', not (state_eq w'.enum.state enumeration_done))
