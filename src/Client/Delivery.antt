-- ===== src/Client/Delivery.antt =====
-- sricd/client.c and sricd/device.c: what the delivery of a frame to clients leaves alone.
use sricd.Base.{ℕ, ◌≡◌, List, [], ◌∷◌, arith}
use sricd.World.{World, Platform, Frame, Tag, Target, null, bad_enum_tag, owner, ok}
use sricd.World.Ensures.{Ensures, Ensures->>=, Ensures-if, Ensures-mono}
use sricd.Client.{client_push_rx, client_push_note}
use sricd.Device.{dispatch_loop, device_dispatch_note}

-- A delivery writes to clients and to sockets only.
pub record Delivers (w w' : World) : Type 0 where
  pub tx_queue_0 : w'.tx_queue_0 ≡ w.tx_queue_0
  pub tx_queue_1 : w'.tx_queue_1 ≡ w.tx_queue_1
  pub iface : w'.iface ≡ w.iface
  pub enum : w'.enum ≡ w.enum
  pub device_types : w'.device_types ≡ w.device_types
  pub targets : w'.targets ≡ w.targets

unchanged : (w : World) → Delivers w w
unchanged w = ground arith

Delivers-trans : (u v w : World) → Delivers u v → Delivers v w → Delivers u w
Delivers-trans u v w h k = ground arith

pub client_push_rx-Delivers :
    (tag : Tag) (rx : Frame) (w : World) → Ensures (Delivers w) (client_push_rx tag rx w)
unfolding client_push_rx
client_push_rx-Delivers null rx w = tt
client_push_rx-Delivers bad_enum_tag rx w = tt
client_push_rx-Delivers (owner c) rx w = ground arith

pub client_push_note-Delivers :
    (c : ℕ) (note : Frame) (w : World) → Ensures (Delivers w) (client_push_note c note w)
unfolding client_push_note
client_push_note-Delivers c note w = ground arith

dispatch_loop-Delivers :
    (flag : ℕ) (note : Frame) (ts : List Target) (w : World)
    → Ensures (Delivers w) (dispatch_loop flag note ts w)
unfolding dispatch_loop
dispatch_loop-Delivers flag note [] w = unchanged w
dispatch_loop-Delivers flag note (t ∷ ts) w =
    Ensures->>= (Delivers w) (Delivers w) _ (dispatch_loop flag note ts)
      (Ensures-if (Delivers w) _ (ok w) (client_push_note t.c note w) (λ _. unchanged w)
        (λ _. client_push_note-Delivers t.c note w))
      (λ v d.
        Ensures-mono (Delivers v) (Delivers w) _ (dispatch_loop-Delivers flag note ts v)
          (λ u e. Delivers-trans w v u d e))

module _ ⦃env : Platform⦄ where
  pub device_dispatch_note-Delivers :
      (note : Frame) (w : World) → Ensures (Delivers w) (device_dispatch_note note w)
  unfolding device_dispatch_note
  device_dispatch_note-Delivers note w =
      dispatch_loop-Delivers _ note (w.targets note.source_address) w
