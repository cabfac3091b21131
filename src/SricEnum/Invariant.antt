-- ===== src/SricEnum/Invariant.antt =====
-- sricd/sric-enum.c: the addresses that the state machine gives out, and how it can end.
use sricd.Base.{
  ◌-◌, ◌≤◌, ◌<◌, ◌≡◌, ◌≢◌, ◌⊎◌, refl, Bool, true, false, arith, Bool-cases, inl, inr, if◌then◌else◌,
  ◌==◌, leb, not, get_or,
}
use sricd.World.{
  World, Platform, PackedFrame, Outcome, EnumState, Enumeration, idle, killing_token, resetting,
  enumerating, setting_addr, setting_gw_addr, advancing_token, fetching_classes, enumeration_done,
  ok, exited,
}
use sricd.SricEnum.{
  EnumEvent, start_enum, token_catch_timeout, bus_reset, dev_present, new_dev_ack, tok_at_gw,
  addr_info_ack, dispatch, sric_enum_fsm, addr_info_received, assign_address, fetch_classes,
  record_class, frame_received, ack_received, sric_enum_rx, state_eq, answers_have_token,
  comes_from_newest, answers_addr_info,
}
use sricd.SricEnum.Footprint.{add_devices_lem}
use sricd.OutputQueue.{txq_push}
use sricd.SricIf.Ready.{sric_if_tx_ready}

-- Whether the state has an address out that is not acknowledged yet.
abbrev assigning : EnumState → Bool
assigning setting_addr = true
assigning setting_gw_addr = true
assigning advancing_token = true
assigning _ = false

-- The next address is one that a device can have, or the first beyond; while classes are fetched,
-- at least the address 2 was given out, and the next to be asked is not beyond those given out.
pub record AddressesOk (e : Enumeration) : Type 0 where
  pub next_low : 2 ≤ e.current_next_address
  pub next_high : e.current_next_address ≤ 128
  pub assigned : assigning e.state ≡ true → e.current_next_address < 128
  pub asked_low : e.state ≡ fetching_classes → 3 ≤ e.current_addr_info_addr
  pub asked_high : e.state ≡ fetching_classes → e.current_addr_info_addr ≤ e.current_next_address

-- The call returns with the addresses in order, or it ends the program with all of them in use.
abbrev pub Continues : World → Outcome World → Type 0
Continues w r =
    ((w' : World) × (r ≡ ok w') × AddressesOk w'.enum)
    ⊎ ((r ≡ exited) × (w.enum.state ≡ enumerating) × (w.enum.current_next_address ≡ 128))

module _ ⦃env : Platform⦄ where
  addr_info_received-AddressesOk :
      (w : World)
      → AddressesOk w.enum
      → w.enum.state ≡ fetching_classes
      → AddressesOk (addr_info_received w).enum
  unfolding addr_info_received txq_push sric_if_tx_ready
  addr_info_received-AddressesOk w a s =
      ground (arith, add_devices_lem (w.enum.current_next_address - 2) 2 w)

  assign_address-Continues :
      (w : World) (s : EnumState)
      → AddressesOk w.enum
      → w.enum.state ≡ enumerating
      → s ≢ fetching_classes
      → Continues w (assign_address s w)
  unfolding assign_address txq_push sric_if_tx_ready
  assign_address-Continues w s a e ne = elim (Bool-cases (leb 128 w.enum.current_next_address)) [
    | inl full ↦ rw full (inr (refl, e, ground arith))
    | inr room ↦ rw room (inl (_, refl, ground arith))
  ]

  dispatch-Continues :
      (s : EnumState) (ev : EnumEvent) (w : World)
      → w.enum.state ≡ s
      → AddressesOk w.enum
      → Continues w (dispatch s ev w)
  unfolding dispatch fetch_classes txq_push sric_if_tx_ready
  dispatch-Continues idle start_enum w e a = inl (_, refl, ground arith)
  dispatch-Continues killing_token token_catch_timeout w e a = inl (_, refl, ground arith)
  dispatch-Continues resetting bus_reset w e a = inl (_, refl, ground arith)
  dispatch-Continues enumerating tok_at_gw w e a =
      assign_address-Continues w setting_gw_addr a e (λ h. cc)
  dispatch-Continues enumerating dev_present w e a =
      assign_address-Continues w setting_addr a e (λ h. cc)
  dispatch-Continues setting_gw_addr new_dev_ack w e a = inl (_, refl, ground arith)
  dispatch-Continues setting_addr new_dev_ack w e a = inl (_, refl, ground arith)
  dispatch-Continues advancing_token new_dev_ack w e a = inl (_, refl, ground arith)
  dispatch-Continues fetching_classes addr_info_ack w e a =
      inl (addr_info_received w, refl, addr_info_received-AddressesOk w a e)
  dispatch-Continues _ _ w e a = inl (w, refl, a)

  pub sric_enum_fsm-Continues :
      (ev : EnumEvent) (w : World) → AddressesOk w.enum → Continues w (sric_enum_fsm ev w)
  unfolding sric_enum_fsm
  sric_enum_fsm-Continues ev w a = dispatch-Continues w.enum.state ev w refl a

  record_class-Continues :
      (f : PackedFrame) (w : World)
      → AddressesOk w.enum
      → Continues w (sric_enum_fsm addr_info_ack (record_class f w))
  unfolding record_class
  record_class-Continues f w a = sric_enum_fsm-Continues addr_info_ack (record_class f w) (record {
    next_low = a.next_low;
    next_high = a.next_high;
    assigned = a.assigned;
    asked_low = a.asked_low;
    asked_high = a.asked_high;
  })

  Continues-if :
      (w : World) (b : Bool) (m n : Outcome World)
      → Continues w m
      → Continues w n
      → Continues w (if b then m else n)
  Continues-if w true m n h k = h
  Continues-if w false m n h k = k

  frame_received-Continues :
      (f : PackedFrame) (w : World) → AddressesOk w.enum → Continues w (frame_received f w)
  unfolding frame_received ack_received
  frame_received-Continues f w a =
      let stays : Continues w (ok w) = inl (w, refl, a) in
      let event = λ (ev : EnumEvent). sric_enum_fsm-Continues ev w a in
      Continues-if w (answers_have_token f w) _ _
        (Continues-if w (get_or f.payload 0 0 == 0) _ _ (event dev_present) (event tok_at_gw))
        (Continues-if w (not (state_eq w.enum.state idle)) _ _
          (Continues-if w (comes_from_newest f w) _ _ (event new_dev_ack)
            (Continues-if w (answers_addr_info f w) _ _ (record_class-Continues f w a) stays))
          stays)

  pub sric_enum_rx_total :
      (f : PackedFrame) (w : World)
      → AddressesOk w.enum
      → ((w' : World) × (sric_enum_rx f w ≡ ok (w', not (state_eq w'.enum.state enumeration_done)))
          × AddressesOk w'.enum)
        ⊎ ((sric_enum_rx f w ≡ exited)
            × (w.enum.state ≡ enumerating)
            × (w.enum.current_next_address ≡ 128))
  unfolding sric_enum_rx
  sric_enum_rx_total f w a = elim (frame_received-Continues f w a) [
    | inl (w', e, b) ↦ inl (w', rw e, b)
    | inr (e, s, full) ↦ inr (rw e, s, full)
  ]
