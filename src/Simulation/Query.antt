-- ===== src/Simulation/Query.antt =====
-- libsric, sricd and ostric: a program asks a device of the bus for its class.
use sricd.Base.{
  ℕ, zero, suc, ◌+◌, ◌%◌, ◌^◌, ◌≤◌, ◌<◌, ◌==◌, ◌≡◌, ◌≢◌, ◌∙◌, ap, refl, true, false, List, [], ◌∷◌,
  ◌++◌, arith, length, drop, get_or, ==_refl, Bool-cases, inl, inr,
}
use sricd.World.{TxFrame}
use sricd.World.Socket.{Socket}
use sricd.SricEnum.{syscmd_addr_info}
use sricd.SricIf.Transmit.{build_frame}
use sricd.Protocol.Sending.{frame_sent}
use sricd.Ostric.{BusClient, Bus, generic, reply_bytes, send_msg, emit_data_ack}
use sricd.Ostric.Generic.{generic_msg, msg_callback}
use sricd.Ostric.Commands
use sricd.Ostric.Commands.{despatch_loop}
use sricd.Ostric.Token.{advance_token}
use sricd.Ostric.Addressing.{settled, row, Says}
use sricd.Simulation.Answering.{pty_with, Answers}
use sricd.Simulation.Devices.{ring}

-- The frame of the client `c` that asks the device at `a`.
abbrev pub info_request : ℕ → ℕ → TxFrame
info_request c a = frame_sent c a 1 (syscmd_addr_info ∷ [])

abbrev info_frame : List ℕ → ℕ → ℕ → List ℕ
info_frame more c a = build_frame (info_request c a) ++ more

info_frame-Says :
    (more : List ℕ) (c a : ℕ)
    → a < 128
    → Says (info_frame more c a) a syscmd_addr_info (get_or (info_frame more c a) 5 0)
unfolding build_frame
info_frame-Says more c a low = record {
  receiver_is = omega arith;
  sender_is = refl;
  command_is = refl;
  argument_is = refl;
}

module _ (a x : ℕ) (buffer : List ℕ) (says : Says buffer a syscmd_addr_info x) where
  info-other :
      (b : ℕ) (pty : Socket)
      → a ≢ b
      → a ≢ 0
      → msg_callback generic (settled b false) buffer pty ≡ (settled b false, pty)
  unfolding msg_callback generic_msg
  info-other b pty other single =
      let away : (a == b) ≡ false = ground arith in
      let alone : (a == 0) ≡ false = ground arith in
      rw (says.receiver_is, says.command_is, away, alone) refl

  info-own :
      (pty : Socket)
      → a < 128
      → msg_callback generic (settled a false) buffer pty
        ≡ (settled a false, emit_data_ack a 1 (0 ∷ []) pty)
  unfolding msg_callback generic_msg
  info-own pty low =
      let same : a % 2 ^ 32 % 256 ≡ a = omega arith in
      rw (says.receiver_is, says.command_is, says.sender_is, ==_refl a, same) refl

  -- Devices behind the one that is asked.
  info-behind :
      (n b : ℕ) (pty : Socket) → a < b → a ≢ 0 → despatch_loop (row n b) buffer pty ≡ (row n b, pty)
  unfolding despatch_loop
  info-behind zero b pty less single = refl
  info-behind (suc n) b pty less single =
      rw (info-other b pty (omega arith) single, info-behind n (b + 1) pty (omega arith) single)
        refl

  info_row :
      (n b : ℕ) (pty : Socket)
      → a ≢ 0
      → a < 128
      → b ≤ a
      → a < b + n
      → despatch_loop (row n b) buffer pty ≡ (row n b, emit_data_ack a 1 (0 ∷ []) pty)
  unfolding despatch_loop
  info_row zero b pty single low high less = absurd (omega arith)
  info_row (suc n) b pty single low high less = elim (Bool-cases (a == b)) [
    | inl here ↦
        let same : b ≡ a = ground arith in
        rw same (
          rw
            (
              info-own pty low,
              info-behind n (a + 1) (emit_data_ack a 1 (0 ∷ []) pty) (omega arith) single,
            )
            refl)
    | inr away ↦
        let other : a ≢ b = ground arith in
        let further : b + 1 ≤ a = omega arith in
        rw (info-other b pty other single, info_row n (b + 1) pty single low further (omega arith))
          refl
  ]

emit_data_ack_lem :
    (a : ℕ) → emit_data_ack a 1 (0 ∷ []) (pty_with []) ≡ pty_with (reply_bytes a 0x81 (0 ∷ []))
unfolding emit_data_ack send_msg
emit_data_ack_lem a = refl

-- A bus on which every client has its address, and the gateway the token: the one that is asked
-- answers.
pub info_request-answered :
    (stale : List ℕ) (n c a : ℕ) (bus : Bus)
    → 2 ≤ a
    → a < 2 + n
    → a < 128
    → let b = ring (row n 2) true true bus in
      Answers stale (info_request c a) b b (reply_bytes a 0x81 (0 ∷ []))
unfolding Commands.bus_command advance_token
info_request-answered stale n c a bus high less low =
    let more = drop (length (build_frame (info_request c a))) stale in
    ap
      (λ (r : List BusClient × Socket).
        advance_token (record (ring r.0 true true bus) { pty_buf = []; pty = r.1 }))
      (info_row a (get_or (info_frame more c a) 5 0) (info_frame more c a)
        (info_frame-Says more c a low) n 2 (pty_with []) (omega arith) low high less)
    ∙ ap (λ p. advance_token (record (ring (row n 2) true true bus) { pty_buf = []; pty = p }))
        (emit_data_ack_lem a)
