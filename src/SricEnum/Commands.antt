-- ===== src/SricEnum/Commands.antt =====
-- sricd/sric-enum.c: the commands that the enumeration queues.
use sricd.Base.{ℕ, ◌+◌, Bool, true, false, List, [], ◌∷◌, leb, if◌then◌else◌, length}
use sricd.World.{
  World, Platform, TxFrame, frame_sric, frame_gw_conf, Tag, null, bad_enum_tag, Outcome, ok,
  aborted,
}
use sricd.OutputQueue.{pri_0, txq_push}

-- `0x80 |` one of the system commands.
abbrev pub syscmd_reset : ℕ
syscmd_reset = 0x80

abbrev pub syscmd_tok_advance : ℕ
syscmd_tok_advance = 0x81

abbrev pub syscmd_addr_assign : ℕ
syscmd_addr_assign = 0x82

abbrev pub syscmd_addr_info : ℕ
syscmd_addr_info = 0x83

abbrev pub gw_cmd_use_token_code : ℕ
gw_cmd_use_token_code = 0

abbrev pub gw_cmd_req_token_code : ℕ
gw_cmd_req_token_code = 1

abbrev pub gw_cmd_have_token_code : ℕ
gw_cmd_have_token_code = 2

abbrev pub gw_cmd_gen_token_code : ℕ
gw_cmd_gen_token_code = 3

-- The frames that the functions below queue.
abbrev pub bus_command : ℕ → Tag → List ℕ → TxFrame
bus_command address tag payload = record {
  kind = frame_sric;
  address = address;
  tag = tag;
  payload = payload;
}

abbrev pub gateway_command : List ℕ → TxFrame
gateway_command payload = record {
  kind = frame_gw_conf;
  address = 1;
  tag = bad_enum_tag;
  payload = payload;
}

abbrev pub bool_byte : Bool → ℕ
bool_byte true = 1
bool_byte false = 0

module _ ⦃env : Platform⦄ where
  unfoldable pub send_reset : World → World
  send_reset w = txq_push (bus_command 0 null (syscmd_reset ∷ [])) pri_0 w

  unfoldable pub send_address : ℕ → World → World
  send_address addr w =
      txq_push (bus_command 0 bad_enum_tag (syscmd_addr_assign ∷ addr ∷ [])) pri_0 w

  unfoldable pub send_tok_advance : ℕ → World → World
  send_tok_advance addr w =
      txq_push (bus_command addr bad_enum_tag (syscmd_tok_advance ∷ [])) pri_0 w

  unfoldable pub send_addr_info_req : ℕ → World → World
  send_addr_info_req addr w =
      txq_push (bus_command addr bad_enum_tag (syscmd_addr_info ∷ [])) pri_0 w

  unfoldable pub gw_cmd : ℕ → List ℕ → World → Outcome World
  gw_cmd cmd d w =
      if leb (length d + 1) 64 then ok (txq_push (gateway_command (cmd ∷ d)) pri_0 w) else aborted

  unfoldable pub gw_cmd_use_token : Bool → World → Outcome World
  unfolding gw_cmd
  gw_cmd_use_token use_it w = gw_cmd gw_cmd_use_token_code (bool_byte use_it ∷ []) w

  unfoldable pub gw_cmd_req_token : World → Outcome World
  unfolding gw_cmd
  gw_cmd_req_token w = gw_cmd gw_cmd_req_token_code [] w

  unfoldable pub gw_cmd_have_token : World → Outcome World
  unfolding gw_cmd
  gw_cmd_have_token w = gw_cmd gw_cmd_have_token_code [] w

  unfoldable pub gw_cmd_gen_token : World → Outcome World
  unfolding gw_cmd
  gw_cmd_gen_token w = gw_cmd gw_cmd_gen_token_code [] w
