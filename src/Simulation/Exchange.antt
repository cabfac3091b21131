-- ===== src/Simulation/Exchange.antt =====
-- sricd and ostric: one exchange of a frame and its answer.
use sricd.Base.{
  ℕ, ◌+◌, ◌≤◌, ◌<◌, ◌==◌, ◌≡◌, ◌∙◌, ap, refl, true, false, List, [], ◌∷◌, ◌++◌, arith, some, length,
  append-nil, sym,
}
use sricd.World.{
  World, Platform, TxFrame, Enumeration, EnumState, enumerating, setting_addr, setting_gw_addr,
  advancing_token, ok, ◌>>=◌, bad_enum_tag,
}
use sricd.OutputQueue.{txq_push}
use sricd.SricEnum
use sricd.SricEnum.{
  sric_enum_rx, frame_received, ack_received, send_address, send_tok_advance, gateway_command,
  syscmd_addr_assign, syscmd_tok_advance,
}
use sricd.SricEnum.Steps.{
  device_present_step, token_back_step, address_taken_step, token_advanced_step,
}
use sricd.SricIf.Ready.{sric_if_tx_ready}
use sricd.SricIf.Transmit.{expects_ack}
use sricd.Ostric.{Bus, reply_bytes}
use sricd.Simulation.{hear, bus_round, exchange}
use sricd.Simulation.Hearing.{answer, Leads, AtRest, hear_lem}
use sricd.Simulation.Speaking.{sent, speak_lem}
use sricd.Simulation.Answering.{quiet, Answers, bus_round_lem}

-- What is said of the daemon between two exchanges.
pub record Ready (e : Enumeration) (q : List TxFrame) (w : World) : Type 0 where
  pub rest : AtRest w
  pub enum : w.enum ≡ e
  pub queue : w.tx_queue_0 ≡ q

module _ (stale : List ℕ) ⦃env : Platform⦄ where
  -- The daemon sends a frame, the bus answers it, and the state machine takes its step.
  pub exchange_lem :
      (f : TxFrame) (q fs : List TxFrame) (e e' : Enumeration) (b b' : Bus) (src : ℕ)
      (payload : List ℕ) (w : World)
      → Ready e (f ∷ q) w
      → length f.payload ≤ 58
      → expects_ack (some f) ≡ true
      → src < 128
      → length payload ≤ 64
      → Answers stale f b b' (reply_bytes src 0x81 payload)
      → Leads e (answer src payload) e' fs
      → (w' : World) × (exchange stale (w, quiet b [] []) ≡ ok (w', quiet b' [] []))
        × Ready e' (q ++ fs) w'
  unfolding exchange
  exchange_lem f q fs e e' b b' src payload w ready fits wants low small answers leads =
      let (r, said, waits) = speak_lem f q w ready.rest ready.queue fits wants in
      let told = bus_round_lem stale (reply_bytes src 0x81 payload) f b b' fits answers in
      let (w', heard, rest, enum, queue) =
        hear_lem src payload f fs e e' (sent f q r w) low small waits ready.enum leads in
      (
        w',
        ap
              (λ m. m >>= λ (s : World × List ℕ).
                bus_round stale s.1 (quiet b [] []) >>= λ (t : Bus × List ℕ).
                hear t.1 s.0 >>= λ u. ok (u, t.0))
              said
            ∙ ap (λ m. m >>= λ (t : Bus × List ℕ). hear t.1 (sent f q r w) >>= λ u. ok (u, t.0))
                told
            ∙ ap (λ m. m >>= λ u. ok (u, quiet b' [] [])) heard,
        record { rest = rest; enum = enum; queue = queue },
      )

-- The state machine in a state, with the next address.
abbrev pub in_state : EnumState → ℕ → Enumeration → Enumeration
in_state s a e = record e { state = s; current_next_address = a }

-- The frames that the daemon sends.
abbrev pub assign : ℕ → TxFrame
assign a = SricEnum.bus_command 0 bad_enum_tag (syscmd_addr_assign ∷ a ∷ [])

abbrev pub advance : ℕ → TxFrame
advance a = SricEnum.bus_command a bad_enum_tag (syscmd_tok_advance ∷ [])

abbrev pub have_token_command : TxFrame
have_token_command = gateway_command (2 ∷ [])

abbrev pub gen_token_command : TxFrame
gen_token_command = gateway_command (3 ∷ [])

abbrev pub req_token_command : TxFrame
req_token_command = gateway_command (1 ∷ [])

module _ ⦃env : Platform⦄ (e : Enumeration) (a : ℕ) (low : a < 128) where
  -- HAVE_TOKEN is answered: the token is on its way, or it is back.
  pub device_present_Leads :
      Leads
        (in_state enumerating a e)
        (answer 1 (0 ∷ []))
        (in_state setting_addr a e)
        (assign a ∷ [])
  unfolding send_address txq_push sric_if_tx_ready
  device_present_Leads v here = (
    _,
    ap (λ x. sric_enum_rx (answer 1 (0 ∷ [])) (record v { enum = x })) here
        ∙ device_present_step a (record v { enum = e }) low,
    refl,
    refl,
  )

  pub token_back_Leads :
      Leads
        (in_state enumerating a e)
        (answer 1 (1 ∷ []))
        (in_state setting_gw_addr a e)
        (assign a ∷ [])
  unfolding send_address txq_push sric_if_tx_ready
  token_back_Leads v here = (
    _,
    ap (λ x. sric_enum_rx (answer 1 (1 ∷ [])) (record v { enum = x })) here
        ∙ token_back_step a (record v { enum = e }) low,
    refl,
    refl,
  )

  -- The device at `a` acknowledges its address, and that it lets go of the token.
  pub address_taken_Leads :
      Leads
        (in_state setting_addr a e)
        (answer a [])
        (in_state advancing_token a e)
        (advance a ∷ [])
  unfolding send_tok_advance txq_push sric_if_tx_ready
  address_taken_Leads v here = (
    _,
    ap (λ x. sric_enum_rx (answer a []) (record v { enum = x })) here
        ∙ address_taken_step a (record v { enum = e }) low,
    refl,
    refl,
  )

  pub token_advanced_Leads :
      Leads
        (in_state advancing_token a e)
        (answer a [])
        (in_state enumerating (a + 1) e)
        (have_token_command ∷ [])
  unfolding txq_push sric_if_tx_ready
  token_advanced_Leads v here = (
    _,
    ap (λ x. sric_enum_rx (answer a []) (record v { enum = x })) here
        ∙ token_advanced_step a (record v { enum = e }) low,
    refl,
    refl,
  )

  -- Any other acknowledgement of the gateway is passed over.
  pub gateway_ack_Leads :
      2 ≤ a → Leads (in_state enumerating a e) (answer 1 []) (in_state enumerating a e) []
  unfolding sric_enum_rx frame_received ack_received
  gateway_ack_Leads high v here =
      let other : (1 == a) ≡ false = ground arith in
      (
        record v { enum = in_state enumerating a e },
        ap (λ x. sric_enum_rx (answer 1 []) (record v { enum = x })) here ∙ rw other refl,
        refl,
        sym (append-nil v.tx_queue_0),
      )
