-- ===== src/Device/Reset.antt =====
-- sricd/device.c: the device table that device_reset makes.
use sricd.Base.{ℕ, zero, suc, ◌+◌, ◌≡◌, ◌∙◌, ◌&&◌, List, [], arith, leb, ltb, ◌==◌, if◌then◌else◌}
use sricd.World.{World, Target, update}
use sricd.Device.{no_device, reset_loop, device_reset}

-- The entries by number: 254 is the broadcast address, 0 the gateway, and 255 no device.
abbrev pub reset_entry : ℕ → ℕ → ℕ
reset_entry old a = if a == 0 then 254 else if a == 1 then 0 else if ltb a 128 then 255 else old

abbrev pub reset_targets : List Target → ℕ → List Target
reset_targets old a = if ltb a 128 then [] else old

reset_loop-entries :
    (left i : ℕ) (w : World) (a : ℕ)
    → let v = reset_loop left i w in
      (v.device_types a ≡ (if leb i a && ltb a (i + left) then 255 else w.device_types a))
      × (v.targets a ≡ (if leb i a && ltb a (i + left) then [] else w.targets a))
unfolding reset_loop
reset_loop-entries zero i w a = ground arith
reset_loop-entries (suc left) i w a =
    let v : World = record w {
      targets = update w.targets i [];
      device_types = update w.device_types i no_device;
    } in
    ground (arith, reset_loop-entries left (i + 1) v a)

entry_lem :
    (types : ℕ → ℕ) (a : ℕ)
    → (if leb 2 a && ltb a (2 + 126) then 255 else update (update types 0 254) 1 0 a)
      ≡ reset_entry (types a) a
entry_lem types a = ground arith

targets_lem :
    (targets : ℕ → List Target) (a : ℕ)
    → (if leb 2 a && ltb a (2 + 126) then [] else update (update targets 0 []) 1 [] a)
      ≡ reset_targets (targets a) a
targets_lem targets a = ground arith

pub device_reset-entries :
    (w : World) (a : ℕ)
    → ((device_reset w).device_types a ≡ reset_entry (w.device_types a) a)
      × ((device_reset w).targets a ≡ reset_targets (w.targets a) a)
unfolding device_reset
device_reset-entries w a =
    let v : World = record w {
      device_types = update (update w.device_types 0 254) 1 0;
      targets = update (update w.targets 0 []) 1 [];
    } in
    let (types, targets) = reset_loop-entries 126 2 v a in
    (types ∙ entry_lem w.device_types a, targets ∙ targets_lem w.targets a)
