-- ===== src/Simulation/RoundTrip.antt =====
-- libsric, sricd and ostric: the question of a program goes through the daemon to a device of the
-- bus, and the answer all the way back.
use sricd.Base.{
  ℕ, ◌+◌, ◌≤◌, ◌<◌, ◌≡◌, ◌≢◌, ◌∙◌, ap, refl, true, false, List, [], ◌∷◌, ◌++◌, arith, some, none,
  if◌then◌else◌,
}
use sricd.Base.Int.{ℤ}
use sricd.World.{World, Platform, Client, ok, ◌>>=◌}
use sricd.OutputQueue.{txq_push}
use sricd.SricIf.Ready.{sric_if_tx_ready}
use sricd.Device.{device_exists}
use sricd.Client.Waiting.{WaitsOnEmpty, after_push_rx}
use sricd.Ipc.{ipc_client_incoming, write_result}
use sricd.Libsric.Core.{Context, SricFrame, error_none}
use sricd.Libsric.Transfer.{sric_tx, tx_command, sric_poll_rx, poll_command}
use sricd.Protocol.Stream.{request, sent_to, connected}
use sricd.Protocol.Sending.{
  to_send, after_tx, ipc_client_incoming-tx, answer_sent, sric_tx-connected, told,
}
use sricd.Protocol.Polling.{frame_got, sric_poll_rx-ipc_client_incoming}
use sricd.SricEnum.{syscmd_addr_info}
use sricd.SricIf.Transmit.{expects_ack}
use sricd.Ostric.{Bus, reply_bytes}
use sricd.Ostric.Addressing.{row}
use sricd.Simulation.{exchange, hear, bus_round}
use sricd.Simulation.Answering.{quiet, bus_round_lem}
use sricd.Simulation.Devices.{ring}
use sricd.Simulation.Speaking.{dispatched, speak_popped}
use sricd.Simulation.Serving.{Serving, txq_next-second, frame_heard, hear_client}
use sricd.Simulation.Query.{info_request, info_request-answered}

-- A bus of `n` clients that all have their addresses, with the token at the gateway.
abbrev pub settled_bus : ℕ → Bus → Bus
settled_bus n bus = ring (row n 2) true true bus

-- The frame of a program that asks the device at `a` for its class.
abbrev pub question : ℕ → SricFrame
question a = to_send a 1 (syscmd_addr_info ∷ [])

wants_ack : (c a : ℕ) → a < 128 → expects_ack (some (info_request c a)) ≡ true
wants_ack c a low = ground arith

module _ (stale : List ℕ) ⦃env : Platform⦄ where
  -- An exchange for the client `c`, whose frame is the only one that is queued.
  exchange-client :
      (n c a : ℕ) (x : Client) (bus : Bus) (w : World)
      → Serving w
      → w.tx_queue_0 ≡ []
      → w.tx_queue_1 ≡ info_request c a ∷ []
      → w.clients c ≡ some x
      → WaitsOnEmpty x
      → 2 ≤ a
      → a < 2 + n
      → a < 128
      → let b = quiet (settled_bus n bus) [] [] in
        (w' : World) × (exchange stale (w, b) ≡ ok (w', b))
        × (w'.clients c ≡ some (after_push_rx x (frame_heard a (0 ∷ []))))
        × (w'.iface.tx_frame ≡ none)
        × (w'.tx_queue_0 ≡ [])
        × (w'.tx_queue_1 ≡ [])
  unfolding exchange
  exchange-client n c a x bus w serving first second live waits high less low =
      let f = info_request c a in
      let b = quiet (settled_bus n bus) [] [] in
      let p = record w { tx_queue_1 = [] } in
      let popped = txq_next-second f [] w serving.enumerated first second in
      let (r, said) =
        speak_popped f w p serving.in_hand popped refl (omega arith) (wants_ack c a low) in
      let v = dispatched f r p in
      let told =
        bus_round_lem stale (reply_bytes a 0x81 (0 ∷ [])) f (settled_bus n bus) (settled_bus n bus)
          (omega arith) (info_request-answered stale n c a bus high less low) in
      let (w', heard, free, client, queue_0, queue_1) =
        hear_client a c (0 ∷ []) f x v low (omega arith)
          (record {
            rxbuf_length = serving.bounds.rxbuf_length;
            rxpos_le = serving.bounds.rxpos_le;
            unesc_length = serving.bounds.unesc_length;
            unesc_pos_le = serving.bounds.unesc_pos_le;
          })
          serving.heard refl refl serving.enumerated refl live waits in
      (
        w',
        ap
              (λ m. m >>= λ (s : World × List ℕ).
                bus_round stale s.1 b >>= λ (t : Bus × List ℕ). hear t.1 s.0 >>= λ u. ok (u, t.0))
              said
            ∙ ap (λ m. m >>= λ (t : Bus × List ℕ). hear t.1 v >>= λ u. ok (u, t.0)) told
            ∙ ap (λ m. m >>= λ u. ok (u, b)) heard,
        client,
        free,
        queue_0 ∙ first,
        queue_1,
      )

  -- The request of the program, as the daemon takes it.
  after_tx-Serving :
      (fd c a : ℕ) (w : World)
      → Serving w
      → device_exists a w ≡ true
      → w.tx_queue_1 ≡ []
      → let v = after_tx fd (info_request c a) w in
        Serving v
        × (v.tx_queue_0 ≡ w.tx_queue_0)
        × (v.tx_queue_1 ≡ info_request c a ∷ [])
        × (v.clients ≡ w.clients)
  unfolding txq_push sric_if_tx_ready write_result
  after_tx-Serving fd c a w serving exists empty = ground arith

  submitted :
      (fd c a : ℕ) (w : World)
      → a < 128
      → device_exists a w ≡ true
      → (ipc_client_incoming fd c (request (1 ∷ 4 ∷ 1 ∷ []) (tx_command (question a))) w
          ≡ ok (after_tx fd (info_request c a) w, true))
        × (sent_to fd (after_tx fd (info_request c a) w).calls ≡ sent_to fd w.calls ++ 0 ∷ [])
  submitted fd c a w low exists = (
    ipc_client_incoming-tx fd c a 1 (syscmd_addr_info ∷ []) w low (omega arith) (omega arith),
    answer_sent fd (info_request c a) w
        ∙ ap (λ e. sent_to fd w.calls ++ (if e then 0 else 1) ∷ []) exists,
  )

  accepted :
      (a : ℕ) (rest written : List ℕ) (ctx : Context)
      → a < 128
      → a ≢ 1
      → sric_tx (some (connected (0 ∷ rest) written ctx)) (question a) ≡ (
        some (
            connected rest
              (written ++ tx_command (question a))
              (record ctx { error = error_none })),
        false,
      )
  accepted a rest written ctx low other =
      sric_tx-connected a 1 0 (syscmd_addr_info ∷ []) rest written ctx low other (omega arith)
      ∙ told true (connected rest (written ++ tx_command (question a)) ctx)

  queued_for :
      (x : Client) (a : ℕ)
      → x.rx_ping_set ≡ false
      → x.rx_q ≡ []
      → (after_push_rx x (frame_heard a (0 ∷ []))).rx_q ≡ frame_heard a (0 ∷ []) ∷ []
  queued_for x a idle empty =
      ap
        (λ b.
          (if b
            then record x { rx_timer = 0; rx_ping_set = false }
            else record x { rx_q = x.rx_q ++ frame_heard a (0 ∷ []) ∷ [] }).rx_q)
        idle
      ∙ ap (λ q. q ++ frame_heard a (0 ∷ []) ∷ []) empty

  -- A program asks a device for its class, and the whole way is taken. The enumeration is over, the
  -- daemon's queues are empty, and it has no frame in hand; the device at `a` is registered and is
  -- one of the `n` clients of a simulated bus; the client has nothing queued and waits for nothing;
  -- and nothing on the connection or the line is cut short. Then the daemon takes the request that
  -- `sric_tx` writes and answers 0, whereupon `sric_tx` returns 0; one exchange with the bus leaves
  -- the bus as it was, and the daemon with empty queues and no frame in hand; and the daemon
  -- answers the poll that `sric_poll_rx` writes with the frame of that device, which `sric_poll_rx`
  -- fills in: its address is `a`, its note 0, and its payload the one byte of the class.
  pub sric_tx-sric_poll_rx :
      (fd c n a : ℕ) (x : Client) (bus : Bus) (w : World) (ctx : Context) (old : SricFrame)
      (timeout : ℤ) (rest written : List ℕ)
      → Serving w
      → w.tx_queue_0 ≡ []
      → w.tx_queue_1 ≡ []
      → device_exists a w ≡ true
      → w.clients c ≡ some x
      → x.rx_q ≡ []
      → x.rx_ping_set ≡ false
      → WaitsOnEmpty x
      → 2 ≤ a
      → a < 2 + n
      → a < 128
      → let b = quiet (settled_bus n bus) [] [] in
        let asked =
          connected rest (written ++ tx_command (question a)) (record ctx { error = error_none }) in
        (w1 w2 w3 : World) × (reply : List ℕ) × (ipc_client_incoming fd c
            (request (1 ∷ 4 ∷ 1 ∷ []) (tx_command (question a)))
            w
          ≡ ok (w1, true))
        × (sent_to fd w1.calls ≡ sent_to fd w.calls ++ 0 ∷ [])
        × (sric_tx (some (connected (0 ∷ rest) written ctx)) (question a) ≡ (some asked, false))
        × (exchange stale (w1, b) ≡ ok (w2, b))
        × (w2.iface.tx_frame ≡ none)
        × (w2.tx_queue_0 ≡ [])
        × (w2.tx_queue_1 ≡ [])
        × (ipc_client_incoming fd c (request (1 ∷ 4 ∷ []) (poll_command timeout 2)) w2
            ≡ ok (w3, true))
        × (sent_to fd w3.calls ≡ sent_to fd w2.calls ++ reply)
        × (sric_poll_rx (some (connected (reply ++ rest) written ctx)) old timeout
            ≡ ok (
              some (
                  connected rest
                    (written ++ poll_command timeout 2)
                    (record ctx { error = error_none })),
              frame_got (frame_heard a (0 ∷ [])) old,
              false,
            ))
  sric_tx-sric_poll_rx fd c n a x bus w ctx old timeout rest written serving first second exists
        live empty idle waits high less low =
      let g = frame_heard a (0 ∷ []) in
      let w1 = after_tx fd (info_request c a) w in
      let (taken, answered) = submitted fd c a w low exists in
      let (serves, first', second', clients') = after_tx-Serving fd c a w serving exists second in
      let live' : w1.clients c ≡ some x = ap (λ h. h c) clients' ∙ live in
      let (w2, exchanged, client, free, queue_0, queue_1) =
        exchange-client n c a x bus w1 serves (first' ∙ first) second' live' waits high less low in
      let (w3, reply, polled, _, sent, got) =
        sric_poll_rx-ipc_client_incoming fd c (after_push_rx x g) g [] old timeout rest written ctx
          w2 client (queued_for x a idle empty) (omega arith) in
      (
        w1,
        w2,
        w3,
        reply,
        taken,
        answered,
        accepted a rest written ctx low (omega arith),
        exchanged,
        free,
        queue_0,
        queue_1,
        polled,
        sent,
        got,
      )
