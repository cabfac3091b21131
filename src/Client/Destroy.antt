-- ===== src/Client/Destroy.antt =====
-- sricd/client.c: `client_destroy`.
use sricd.Base.{ℕ, none}
use sricd.World.{World, Platform, owner, Outcome, ok, ◌>>=◌, update}
use sricd.OutputQueue.{txq_cancel}
use sricd.Device.{device_clear_client_notes}

module _ ⦃env : Platform⦄ where
  unfoldable pub client_destroy : ℕ → World → Outcome World
  unfolding txq_cancel device_clear_client_notes
  client_destroy c w = do
    w' ← device_clear_client_notes c (txq_cancel (owner c) w)
    ok (record w' { clients = update w'.clients c none })
