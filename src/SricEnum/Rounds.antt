-- ===== src/SricEnum/Rounds.antt =====
-- sricd/sric-enum.c: what a bus answers in an enumeration, and the commands that it is sent.
use sricd.Base.{ℕ, zero, suc, ◌+◌, ◌<◌, ◌≢◌, List, [], ◌∷◌}
use sricd.World.{TxFrame, bad_enum_tag, PackedFrame, update}
use sricd.SricEnum.{
  bus_command, syscmd_addr_assign, syscmd_addr_info, syscmd_tok_advance, gateway_command,
}
use sricd.SricEnum.Steps.{token_answer, bare_ack, class_answer}

-- One device takes the address `a` and passes the token on.
abbrev pub device_round : ℕ → List PackedFrame → List PackedFrame
device_round a rest = token_answer 0 ∷ bare_ack a ∷ bare_ack a ∷ rest

-- The token comes back, and the gateway takes the address `a`.
abbrev pub gateway_round : ℕ → List PackedFrame → List PackedFrame
gateway_round a rest = token_answer 1 ∷ bare_ack a ∷ rest

-- `n` devices, from the address `a` on, and the gateway.
abbrev pub address_rounds : ℕ → ℕ → List PackedFrame → List PackedFrame
address_rounds zero a rest = gateway_round a rest
address_rounds (suc n) a rest = device_round a (address_rounds n (a + 1) rest)

-- The answers to ADDR_INFO: who answers, and with which class.
abbrev pub class_answers : List (ℕ × ℕ) → List PackedFrame
class_answers [] = []
class_answers ((d, c) ∷ rest) = class_answer d c ∷ class_answers rest

-- What the answers leave in `device_classes`.
abbrev pub recorded : List (ℕ × ℕ) → (ℕ → ℕ) → ℕ → ℕ
recorded [] classes = classes
recorded ((d, c) ∷ rest) classes = recorded rest (update classes d c)

-- Every answer comes from an address below 128 other than `n`.
abbrev pub AnswersFrom : ℕ → List (ℕ × ℕ) → Type 0
AnswersFrom n [] = Unit {0}
AnswersFrom n ((d, c) ∷ rest) = (d < 128) × (d ≢ n) × AnswersFrom n rest

-- The commands of the rounds: each device is offered its address and told to pass the token on, and
-- the gateway is asked whether it has the token; then the gateway is offered its own, takes the
-- token and makes it, and the device at 2 is asked for its class.
abbrev pub address_commands : ℕ → ℕ → List TxFrame
address_commands zero a =
    bus_command 0 bad_enum_tag (syscmd_addr_assign ∷ a ∷ [])
    ∷ gateway_command (0 ∷ 1 ∷ [])
    ∷ gateway_command (3 ∷ [])
    ∷ bus_command 2 bad_enum_tag (syscmd_addr_info ∷ [])
    ∷ []
address_commands (suc n) a =
    bus_command 0 bad_enum_tag (syscmd_addr_assign ∷ a ∷ [])
    ∷ bus_command a bad_enum_tag (syscmd_tok_advance ∷ [])
    ∷ gateway_command (2 ∷ [])
    ∷ address_commands n (a + 1)

-- The questions for the classes of `n` addresses, from `k` on.
abbrev pub info_requests : ℕ → ℕ → List TxFrame
info_requests zero k = []
info_requests (suc n) k =
    bus_command k bad_enum_tag (syscmd_addr_info ∷ []) ∷ info_requests n (k + 1)
