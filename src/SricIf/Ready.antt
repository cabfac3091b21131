-- ===== src/SricIf/Ready.antt =====
-- sricd/sric-if.c: the two calls that the transmit queue makes back into the interface.
use sricd.Base.{Bool, true, false, Option, none, some, ◌∷◌, ◌==◌, if◌then◌else◌}
use sricd.World.{World, Platform, Tag, TxFrame, tag_eq, add_write_watch, next_source_id}

module _ ⦃env : Platform⦄ where
  -- The test is made for each of the two fields that the branch changes.
  unfoldable pub sric_if_tx_ready : World → World
  sric_if_tx_ready w =
      let unwatched = w.iface.write_srcid == 0 in
      record w {
        calls = if unwatched then add_write_watch ∷ w.calls else w.calls;
        iface = record (w.iface) {
          write_srcid = if unwatched then next_source_id w else w.iface.write_srcid;
        };
      }

-- Whether the frame on its way, if any, carries the tag.
abbrev pub tx_frame_has_tag : Tag → Option TxFrame → Bool
tx_frame_has_tag tag none = false
tx_frame_has_tag tag (some f) = tag_eq f.tag tag

unfoldable pub sric_if_cancel : Tag → World → World
sric_if_cancel tag w = record w {
  iface = record (w.iface) {
    frame_cancelled =
        if tx_frame_has_tag tag w.iface.tx_frame then true else w.iface.frame_cancelled;
  };
}
