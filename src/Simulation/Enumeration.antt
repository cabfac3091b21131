-- ===== src/Simulation/Enumeration.antt =====
-- sricd and ostric: the daemon enumerates the simulated bus.
use sricd.Base.{
  ℕ, zero, suc, ◌+◌, ◌*◌, ◌≤◌, ◌<◌, ◌≡◌, refl, Bool, true, false, List, [], ◌∷◌, ◌++◌, arith,
  length, replicate, some,
}
use sricd.Base.Int.{pos}
use sricd.World.{
  World, Platform, Enumeration, TxFrame, enumerating, setting_addr, setting_gw_addr,
  advancing_token, ok, ◌>>=◌,
}
use sricd.Ostric.{Bus, reply_bytes}
use sricd.Ostric.Addressing.{fresh, holding, row}
use sricd.Ostric.Enumerated.{line}
use sricd.SricIf.Transmit.{expects_ack}
use sricd.Simulation.{exchange, exchanges}
use sricd.Simulation.Hearing.{answer, Leads}
use sricd.Simulation.Answering.{quiet, Answers}
use sricd.Simulation.Exchange.{
  Ready, exchange_lem, in_state, assign, advance, have_token_command, gen_token_command,
  req_token_command, device_present_Leads, token_back_Leads, address_taken_Leads,
  token_advanced_Leads, gateway_ack_Leads,
}
use sricd.Simulation.Devices.{
  ring, have_token_command-away, assign-taken, advance-moves, advance-ends, req_token_command-away,
  gen_token_command-taken, have_token_command-back, gen_token_command-alone, req_token_command-back,
  assign-silent,
}
use sricd.Simulation.Unanswered.{Unanswered, sent-Unanswered, retries, retries_lem}

-- The bus between two exchanges.
abbrev pub resting : Bus → Bus
resting b = quiet b [] []

wants_ack : (a : ℕ) → a < 128 → expects_ack (some (advance a)) ≡ true
wants_ack a low = ground arith

module _ (stale : List ℕ) ⦃env : Platform⦄ where
  -- So many exchanges take the daemon and the bus from one state to another.
  abbrev Goes : ℕ → Enumeration → List TxFrame → Bus → Enumeration → List TxFrame → Bus → Type 0
  Goes n e q b e' q' b' =
      (w : World)
      → Ready e q w
      → (w' : World) × (exchanges stale n (w, resting b) ≡ ok (w', resting b')) × Ready e' q' w'

  stays : (e : Enumeration) (q : List TxFrame) (b : Bus) → Goes 0 e q b e q b
  unfolding exchanges
  stays e q b w r = (w, refl, r)

  -- One exchange, and what follows it.
  goes :
      (n : ℕ) (f : TxFrame) (q fs q' : List TxFrame) (e e' e'' : Enumeration) (b b' b'' : Bus)
      (src : ℕ) (payload : List ℕ)
      → length f.payload ≤ 58
      → expects_ack (some f) ≡ true
      → src < 128
      → length payload ≤ 64
      → Answers stale f b b' (reply_bytes src 0x81 payload)
      → Leads e (answer src payload) e' fs
      → Goes n e' (q ++ fs) b' e'' q' b''
      → Goes (suc n) e (f ∷ q) b e'' q' b''
  unfolding exchanges
  goes n f q fs q' e e' e'' b b' b'' src payload fits wants low small answers leads rest w r =
      let (v, step, ready) =
        exchange_lem stale f q fs e e' b b' src payload w r fits wants low small answers leads in
      let (w', steps, done) = rest v ready in (w', rw step steps, done)

  module _ (e : Enumeration) (bus : Bus) where
    -- The daemon looks for the device at `a`.
    abbrev looking : ℕ → Enumeration
    looking a = in_state enumerating a e

    -- A device takes its address and passes the token on.
    device_exchanges :
        (n m a k : ℕ) (q' : List TxFrame) (e' : Enumeration) (next b' : Bus)
        → a ≡ 2 + n
        → a < 127
        → Answers stale
            (advance a)
            (ring (line n (holding (pos a)) m) false true bus)
            next
            (reply_bytes a 0x81 [])
        → Goes k (looking (a + 1)) (have_token_command ∷ []) next e' q' b'
        → Goes
            (suc (suc (suc k)))
            (looking a)
            (have_token_command ∷ [])
            (ring (line n (fresh true) m) false true bus)
            e'
            q'
            b'
    device_exchanges n m a k q' e' next b' here low told rest =
        let away = ring (line n (fresh true) m) false true bus in
        let seated = ring (line n (holding (pos a)) m) false true bus in
        goes (suc (suc k)) have_token_command [] (assign a ∷ []) q' (looking a)
          (in_state setting_addr a e) e' away away b' 1 (0 ∷ []) (omega arith) refl (omega arith)
          (omega arith) (have_token_command-away stale true bus n m)
          (device_present_Leads e a (omega arith))
          (goes (suc k) (assign a) [] (advance a ∷ []) q' (in_state setting_addr a e)
            (in_state advancing_token a e) e' away seated b' a [] (omega arith) refl (omega arith)
            (omega arith) (assign-taken stale true bus n m a (omega arith))
            (address_taken_Leads e a (omega arith))
            (goes k (advance a) [] (have_token_command ∷ []) q' (in_state advancing_token a e)
              (looking (a + 1)) e' seated next b' a [] (omega arith) (wants_ack a (omega arith))
              (omega arith) (omega arith) told (token_advanced_Leads e a (omega arith)) rest))

    -- The devices from the position `n` on, `m` more behind the first; then the token is back.
    all_devices :
        (m n a k : ℕ) (q' : List TxFrame) (e' : Enumeration) (b' : Bus)
        → a ≡ 2 + n
        → a + m < 127
        → Goes k
            (looking (a + suc m))
            (have_token_command ∷ [])
            (ring (row (n + suc m) 2) true true bus)
            e'
            q'
            b'
        → Goes
            (3 * suc m + k)
            (looking a)
            (have_token_command ∷ [])
            (ring (line n (fresh true) m) false true bus)
            e'
            q'
            b'
    all_devices zero n a k q' e' b' here low rest =
        let count : 3 * suc zero + k ≡ suc (suc (suc k)) = omega arith in
        let next : n + suc zero ≡ suc n = omega arith in
        rw count (
          device_exchanges n zero a k q' e' (ring (row (suc n) 2) true true bus) b' here
            (omega arith) (advance-ends stale true bus n a here (omega arith)) (rw next at rest))
    all_devices (suc m) n a k q' e' b' here low rest =
        let count : 3 * suc (suc m) + k ≡ suc (suc (suc (3 * suc m + k))) = omega arith in
        let size : n + suc (suc m) ≡ suc n + suc m = omega arith in
        let last : a + suc (suc m) ≡ a + 1 + suc m = omega arith in
        rw count (
          device_exchanges n (suc m) a (3 * suc m + k) q' e'
            (ring (line (suc n) (fresh true) m) false true bus) b' here (omega arith)
            (advance-moves stale true bus n m a here (omega arith))
            (all_devices m (suc n) (a + 1) k q' e' b' (omega arith) (omega arith)
              (rw (size, last) at rest)))

    -- All have their addresses: the daemon offers the gateway the next one.
    token_found :
        (n a : ℕ)
        → a < 128
        → Goes 1
            (looking a)
            (have_token_command ∷ [])
            (ring (row n 2) true true bus)
            (in_state setting_gw_addr a e)
            (assign a ∷ [])
            (ring (row n 2) true true bus)
    token_found n a low =
        let found = ring (row n 2) true true bus in
        let last = in_state setting_gw_addr a e in
        goes zero have_token_command [] (assign a ∷ []) (assign a ∷ []) (looking a) last last found
          found found 1 (1 ∷ []) (omega arith) refl (omega arith) (omega arith)
          (have_token_command-back stale (row n 2) bus) (token_back_Leads e a low)
          (stays last (assign a ∷ []) found)

    -- GEN_TOKEN and REQ_TOKEN, and what follows them.
    token_made :
        (keep : Bool) (k : ℕ) (q' : List TxFrame) (e' : Enumeration) (before made asked b' : Bus)
        → Answers stale gen_token_command before made (reply_bytes 1 0x81 [])
        → Answers stale req_token_command made asked (reply_bytes 1 0x81 [])
        → Goes k (looking 2) (have_token_command ∷ []) asked e' q' b'
        → Goes
            (suc (suc k))
            (looking 2)
            (gen_token_command ∷ req_token_command ∷ have_token_command ∷ [])
            before
            e'
            q'
            b'
    token_made keep k q' e' before made asked b' first second rest =
        let passed = gateway_ack_Leads e 2 (omega arith) (omega arith) in
        goes (suc k) gen_token_command (req_token_command ∷ have_token_command ∷ []) [] q'
          (looking 2) (looking 2) e' before made b' 1 [] (omega arith) refl (omega arith)
          (omega arith) first passed
          (goes k req_token_command (have_token_command ∷ []) [] q' (looking 2) (looking 2) e' made
            asked b' 1 [] (omega arith) refl (omega arith) (omega arith) second passed rest)

    enumerated :
        (n : ℕ) (keep : Bool)
        → n ≤ 125
        → Goes
            (3 * n + 3)
            (looking 2)
            (gen_token_command ∷ req_token_command ∷ have_token_command ∷ [])
            (ring (replicate n (fresh false)) false keep bus)
            (in_state setting_gw_addr (2 + n) e)
            (assign (2 + n) ∷ [])
            (ring (row n 2) true true bus)
    enumerated zero keep fits =
        token_made keep 1 (assign 2 ∷ []) (in_state setting_gw_addr 2 e) (ring [] false keep bus)
          (ring [] true false bus) (ring [] true true bus) (ring [] true true bus)
          (gen_token_command-alone stale keep bus) (req_token_command-back stale [] false bus)
          (token_found 0 2 (omega arith))
    enumerated (suc m) keep fits =
        let count : 3 * suc m + 3 ≡ suc (suc (3 * suc m + 1)) = omega arith in
        let size : 0 + suc m ≡ suc m = omega arith in
        let found = ring (row (suc m) 2) true true bus in
        let last = in_state setting_gw_addr (2 + suc m) e in
        rw count (
          token_made keep (3 * suc m + 1) (assign (2 + suc m) ∷ []) last
            (ring (replicate (suc m) (fresh false)) false keep bus)
            (ring (line 0 (fresh true) m) false false bus)
            (ring (line 0 (fresh true) m) false true bus) found
            (gen_token_command-taken stale keep bus m) (req_token_command-away stale false bus 0 m)
            (all_devices m 0 2 1 (assign (2 + suc m) ∷ []) last found (omega arith) (omega arith)
              (rw size (token_found (suc m) (2 + suc m) (omega arith)))))

  -- The daemon enumerates a simulated bus. Let the state machine look for devices, with 2 for the
  -- next address and the last three commands of its start-up queued, and the bus have `n` clients,
  -- at most 125, that have just been reset, and no token. Each exchange is a frame of the daemon,
  -- written and read in full, a round of the bus, and the answer to it. After `3 * n + 3` of them
  -- the clients have the addresses from 2 on, in their order, and the daemon offers the next
  -- address to the gateway. But that gets no answer: however often the daemon then repeats the
  -- frame, the state machine stays in `S_SETTING_GW_ADDR`, and the bus as it is.
  pub enumeration_stalls :
      (n k : ℕ) (keep : Bool) (e : Enumeration) (bus : Bus) (w : World)
      → n ≤ 125
      → Ready
          (in_state enumerating 2 e)
          (gen_token_command ∷ req_token_command ∷ have_token_command ∷ [])
          w
      → let before = resting (ring (replicate n (fresh false)) false keep bus) in
        let after = resting (ring (row n 2) true true bus) in
        let last = in_state setting_gw_addr (2 + n) e in
        (v u : World) × (exchanges stale (3 * n + 3) (w, before) ≡ ok (v, after))
        × Ready last (assign (2 + n) ∷ []) v
        × ((exchange stale (v, after) >>= retries stale k) ≡ ok (u, after))
        × Unanswered (assign (2 + n)) last [] u
  enumeration_stalls n k keep e bus w fits start =
      let found = ring (row n 2) true true bus in
      let last = in_state setting_gw_addr (2 + n) e in
      let silent = assign-silent stale n (2 + n) bus in
      let (v, goes_on, ready) = enumerated e bus n keep fits w start in
      let (v', offered, waits) =
        sent-Unanswered stale (assign (2 + n)) last [] found found v ready (omega arith) refl
          silent in
      let (u, stalled, still) =
        retries_lem stale (assign (2 + n)) last [] found (omega arith) refl silent k v' waits in
      (v, u, goes_on, ready, rw offered stalled, still)
