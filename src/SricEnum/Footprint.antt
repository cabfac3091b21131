-- ===== src/SricEnum/Footprint.antt =====
-- sricd/sric-enum.c: what no step of the state machine touches.
use sricd.Base.{ℕ, zero, suc, ◌+◌, ◌≡◌, refl, arith, Bool-cases, inl, inr, ◌==◌}
use sricd.World.{
  World, Platform, PackedFrame, EnumState, idle, killing_token, resetting, enumerating,
  setting_addr, setting_gw_addr, advancing_token, fetching_classes,
}
use sricd.World.Ensures.{Ensures, Ensures->>=, Ensures-mono}
use sricd.SricEnum.{
  EnumEvent, start_enum, token_catch_timeout, bus_reset, dev_present, new_dev_ack, tok_at_gw,
  addr_info_ack, add_devices, dispatch, sric_enum_fsm, addr_info_received, sric_enum_rx,
  frame_received, ack_received, record_class,
}
use sricd.OutputQueue.{txq_push}
use sricd.SricIf.Ready.{sric_if_tx_ready}

-- The state machine writes its own statics, the first queue, the device types and the watch of the
-- port; it leaves the rest alone.
pub record Keeps (w w' : World) : Type 0 where
  pub tx_queue_1 : w'.tx_queue_1 ≡ w.tx_queue_1
  pub targets : w'.targets ≡ w.targets
  pub clients : w'.clients ≡ w.clients
  pub iface : w'.iface ≡ record (w.iface) { write_srcid = w'.iface.write_srcid }

pub add_devices_lem :
    (n i : ℕ) (w : World)
    → add_devices n i w ≡ record w { device_types = (add_devices n i w).device_types }
unfolding add_devices
add_devices_lem zero i w = refl
add_devices_lem (suc n) i w = add_devices_lem n (i + 1) _

module _ ⦃env : Platform⦄ where
  addr_info_received-Keeps : (w : World) → Keeps w (addr_info_received w)
  unfolding addr_info_received txq_push sric_if_tx_ready
  addr_info_received-Keeps w =
      elim (Bool-cases (w.enum.current_addr_info_addr == w.enum.current_next_address)) [
        | inl last ↦
            rw (last, add_devices_lem)
              (record { tx_queue_1 = refl; targets = refl; clients = refl; iface = refl })
        | inr more ↦
            rw more (record { tx_queue_1 = refl; targets = refl; clients = refl; iface = refl })
      ]

  dispatch-Keeps :
      (s : EnumState) (ev : EnumEvent) (w : World) → Ensures (Keeps w) (dispatch s ev w)
  unfolding dispatch txq_push sric_if_tx_ready
  dispatch-Keeps idle start_enum w = ground arith
  dispatch-Keeps killing_token token_catch_timeout w = ground arith
  dispatch-Keeps resetting bus_reset w = ground arith
  dispatch-Keeps enumerating tok_at_gw w = ground arith
  dispatch-Keeps enumerating dev_present w = ground arith
  dispatch-Keeps setting_gw_addr new_dev_ack w = ground arith
  dispatch-Keeps setting_addr new_dev_ack w = ground arith
  dispatch-Keeps advancing_token new_dev_ack w = ground arith
  dispatch-Keeps fetching_classes addr_info_ack w = addr_info_received-Keeps w
  dispatch-Keeps _ _ w = record { tx_queue_1 = refl; targets = refl; clients = refl; iface = refl }

  pub sric_enum_fsm-Keeps : (ev : EnumEvent) (w : World) → Ensures (Keeps w) (sric_enum_fsm ev w)
  unfolding sric_enum_fsm
  sric_enum_fsm-Keeps ev w = dispatch-Keeps w.enum.state ev w

  unchanged : (w : World) → Keeps w w
  unchanged w = record { tx_queue_1 = refl; targets = refl; clients = refl; iface = refl }

  record_class-Keeps : (f : PackedFrame) (w w' : World) → Keeps (record_class f w) w' → Keeps w w'
  unfolding record_class
  record_class-Keeps f w w' k = record {
    tx_queue_1 = k.tx_queue_1;
    targets = k.targets;
    clients = k.clients;
    iface = k.iface;
  }

  ack_received-Keeps : (f : PackedFrame) (w : World) → Ensures (Keeps w) (ack_received f w)
  unfolding ack_received
  ack_received-Keeps f w = ground (
    arith,
    sric_enum_fsm-Keeps new_dev_ack w,
    Ensures-mono (Keeps (record_class f w)) (Keeps w) _
        (sric_enum_fsm-Keeps addr_info_ack (record_class f w)) (record_class-Keeps f w),
    unchanged w,
  )

  frame_received-Keeps : (f : PackedFrame) (w : World) → Ensures (Keeps w) (frame_received f w)
  unfolding frame_received
  frame_received-Keeps f w = ground (
    arith,
    sric_enum_fsm-Keeps dev_present w,
    sric_enum_fsm-Keeps tok_at_gw w,
    ack_received-Keeps f w,
    unchanged w,
  )

  -- A frame handed to the state machine leaves the second queue, the clients, their targets and,
  -- but for the watch, the port as they were.
  pub sric_enum_rx-Keeps :
      (f : PackedFrame) (w : World) → Ensures (λ r. Keeps w r.0) (sric_enum_rx f w)
  unfolding sric_enum_rx
  sric_enum_rx-Keeps f w =
      Ensures->>= (Keeps w) (λ r. Keeps w r.0) (frame_received f w) _ (frame_received-Keeps f w)
        (λ w' k. k)
