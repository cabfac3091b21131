-- ===== src/SricEnum/StartUp.antt =====
-- sricd/sric-enum.c: from `sric_enum_start` to the first device.
use sricd.Base.{
  ℕ, zero, suc, ◌≡◌, ◌∙◌, refl, sym, Bool, true, false, List, [], ◌∷◌, ◌++◌, append_assoc,
  append-nil, if◌then◌else◌,
}
use sricd.World.{
  World, Platform, TxFrame, null, bad_enum_tag, idle, enumerating, Outcome, ok, no_fuel, ◌>>=◌,
  Effect, Callback, timeout_add, kill_token_timeout, send_reset_timeout, add_write_watch,
}
use sricd.OutputQueue.{txq_push}
use sricd.SricIf.Ready.{sric_if_tx_ready}
use sricd.SricEnum.{
  sric_enum_start, kill_token_timeout_fired, send_reset_timeout_fired, bus_command, gateway_command,
  syscmd_reset, syscmd_tok_advance,
}

-- Frames pushed one after the other.
abbrev pushed : List TxFrame → List TxFrame → List TxFrame
pushed queue [] = queue
pushed queue (f ∷ fs) = pushed (queue ++ f ∷ []) fs

pushed_append : (fs queue : List TxFrame) → pushed queue fs ≡ queue ++ fs
pushed_append [] queue = sym (append-nil queue)
pushed_append (f ∷ fs) queue = pushed_append fs (queue ++ f ∷ []) ∙ append_assoc queue (f ∷ []) fs

module _ ⦃env : Platform⦄ where
  -- The timer fires until its callback returns FALSE.
  abbrev pub after_timer : (World → Outcome World) → World × Bool → Outcome World
  after_timer again (w, true) = again w
  after_timer again (w, false) = ok w

  unfoldable pub reset_timer : ℕ → World → Outcome World
  reset_timer zero w = no_fuel
  reset_timer (suc fires) w = send_reset_timeout_fired w >>= after_timer (reset_timer fires)

-- The commands of the start-up: the token is let go twice and then asked for; it is no longer used;
-- the bus is reset five times; a new token is made, asked for, and looked for.
abbrev pub start_up_commands : List TxFrame
start_up_commands =
    bus_command 0 bad_enum_tag (syscmd_tok_advance ∷ [])
    ∷ bus_command 0 bad_enum_tag (syscmd_tok_advance ∷ [])
    ∷ gateway_command (1 ∷ [])
    ∷ gateway_command (0 ∷ 0 ∷ [])
    ∷ bus_command 0 null (syscmd_reset ∷ [])
    ∷ bus_command 0 null (syscmd_reset ∷ [])
    ∷ bus_command 0 null (syscmd_reset ∷ [])
    ∷ bus_command 0 null (syscmd_reset ∷ [])
    ∷ bus_command 0 null (syscmd_reset ∷ [])
    ∷ gateway_command (3 ∷ [])
    ∷ gateway_command (1 ∷ [])
    ∷ gateway_command (2 ∷ [])
    ∷ []

abbrev pub at_start : World → World
at_start w = record w { enum = record (w.enum) { state = idle; reset_count = 0 } }

-- The timers that were set, the last first: after how many milliseconds, and what is to be called.
abbrev pub timers : List Effect → List (ℕ × Callback)
timers [] = []
timers (timeout_add ms callback ∷ calls) = (ms, callback) ∷ timers calls
timers (_ ∷ calls) = timers calls

-- A watch on the port is no timer.
watch_timers :
    (unwatched : Bool) (calls : List Effect)
    → timers (if unwatched then add_write_watch ∷ calls else calls) ≡ timers calls
watch_timers true calls = refl
watch_timers false calls = refl

module _ ⦃env : Platform⦄ where
  -- From `S_IDLE`, with no reset counted, the start of the enumeration sets one timer, of 100
  -- milliseconds, for the kill of the token; that, when it fires, sets one timer, of 50
  -- milliseconds, for the resets; and that, which no sooner than after six times returns FALSE,
  -- leads to `S_ENUMERATING` and sets no timer. No call fails. The commands of the start-up are
  -- queued in their order behind what the first queue held; the second queue, the next address and
  -- the device table are as they were.
  pub start_up_lem :
      (w : World)
      → (w1 w2 w' : World) × (sric_enum_start (at_start w) ≡ ok w1)
        × (timers w1.calls ≡ (100, kill_token_timeout) ∷ timers w.calls)
        × (kill_token_timeout_fired w1 ≡ ok w2)
        × (timers w2.calls ≡ (50, send_reset_timeout) ∷ timers w1.calls)
        × (reset_timer 5 w2 ≡ no_fuel)
        × (reset_timer 6 w2 ≡ ok w')
        × (timers w'.calls ≡ timers w2.calls)
        × (w'.enum.state ≡ enumerating)
        × (w'.tx_queue_0 ≡ w.tx_queue_0 ++ start_up_commands)
        × (w'.tx_queue_1 ≡ w.tx_queue_1)
        × (w'.enum.current_next_address ≡ w.enum.current_next_address)
        × (w'.device_types ≡ w.device_types)
  unfolding reset_timer sric_enum_start kill_token_timeout_fired send_reset_timeout_fired txq_push
      sric_if_tx_ready
  start_up_lem w = (
    _,
    _,
    _,
    refl,
    simp watch_timers,
    refl,
    simp watch_timers,
    refl,
    refl,
    simp watch_timers,
    refl,
    pushed_append start_up_commands w.tx_queue_0,
    refl,
    refl,
    refl,
  )
