-- ===== src/Client/Release.antt =====
-- sricd/client.c: what `client_destroy` leaves behind.
use sricd.Base.{
  ◌||◌, ℕ, ◌≤◌, ◌<◌, ◌≡◌, ◌≢◌, ◌∙◌, refl, ap, true, [], Option, some, none, arith, ==_refl,
}
use sricd.World.{World, Platform, Client, owner, Interface, ok, update}
use sricd.OutputQueue.{txq_cancel}
use sricd.OutputQueue.Laws.{tagged, Without-tagged, txq_cancel_lem}
use sricd.SricIf.Ready.{sric_if_cancel, tx_frame_has_tag}
use sricd.Device.{device_clear_client_notes}
use sricd.Device.Notes.{OnceEach}
use sricd.Device.Registration.{Registers, clear_loop_lem}
use sricd.Client.Destroy.{client_destroy}

-- A cancellation touches the queues and the port only.
txq_cancel-rest :
    (c : ℕ) (w : World)
    → let w' = txq_cancel (owner c) w in (w'.clients ≡ w.clients) × (w'.targets ≡ w.targets)
unfolding txq_cancel sric_if_cancel
txq_cancel-rest c w = (refl, refl)

freed : (clients : ℕ → Option Client) (c : ℕ) → update clients c none c ≡ none
freed clients c = rw (==_refl c) refl

kept : (clients : ℕ → Option Client) (c d : ℕ) → d ≢ c → update clients c none d ≡ clients d
kept clients c d ne = ground arith

module _ ⦃env : Platform⦄ where
  -- Destroying an allocated client returns, where each client stands once at most in the list of
  -- each address. The client is no longer allocated, no frame of it is queued, and if the frame on
  -- its way is one of it then that is cancelled. It is taken off the lists of the addresses 2 to
  -- 127, where every other client keeps its flags; the lists of the addresses 0 and 1 are as they
  -- were, even where they hold the client. No other client is touched.
  pub client_destroy_lem :
      (c : ℕ) (x : Client) (w : World)
      → w.clients c ≡ some x
      → ((a : ℕ) → OnceEach (w.targets a))
      → (w' : World) × (client_destroy c w ≡ ok w')
        × (w'.clients c ≡ none)
        × ((d : ℕ) → d ≢ c → w'.clients d ≡ w.clients d)
        × (tagged (owner c) w'.tx_queue_0 ≡ [])
        × (tagged (owner c) w'.tx_queue_1 ≡ [])
        × (tx_frame_has_tag (owner c) w.iface.tx_frame ≡ true → w'.iface.frame_cancelled ≡ true)
        × ((a : ℕ) → 2 ≤ a → a < 128 → Registers c 0 (w.targets a) (w'.targets a))
        × ((a : ℕ) → a < 2 → w'.targets a ≡ w.targets a)
  unfolding client_destroy device_clear_client_notes
  client_destroy_lem c x w live once =
      let v = txq_cancel (owner c) w in
      let (same_clients, same_targets) = txq_cancel-rest c w in
      let cancelled = txq_cancel_lem (owner c) w in
      let (u, clears, registers, below, above, others, only) =
        clear_loop_lem 126 2 c x v (ap (λ clients. clients c) same_clients ∙ live)
          (λ a. rw same_targets (once a)) in
      (
        record u { clients = update u.clients c none },
        rw clears refl,
        freed u.clients c,
        (λ d ne. kept u.clients c d ne ∙ others d ne ∙ ap (λ clients. clients d) same_clients),
        ap (tagged (owner c)) only.tx_queue_0 ∙ Without-tagged (owner c) cancelled.0,
        ap (tagged (owner c)) only.tx_queue_1 ∙ Without-tagged (owner c) cancelled.1,
        (λ e.
            ap (λ (i : Interface). i.frame_cancelled) only.iface
            ∙ cancelled.2
            ∙ ap (λ b. b || w.iface.frame_cancelled) e),
        (λ a low high. rw same_targets at (registers a low (omega arith))),
        (λ a low. below a low ∙ ap (λ targets. targets a) same_targets),
      )
