-- ===== src/World.antt =====
-- The static data of sricd as one record, the frames of sricd/frame.h and sricd/output-queue.h,
-- and what the program takes from its surroundings.
pub mod Ensures
pub mod Socket
use sricd.Base.{
  ℕ, ◌<◌, ◌+◌, ◌^◌, Bool, true, false, List, [], ◌∷◌, Option, none, some, ltb, ◌==◌, if◌then◌else◌,
}

-- `frame_type_t`.
pub data FrameType : Type 0 where
  frame_sric frame_gw_conf : FrameType

abbrev pub type_byte : FrameType → ℕ
type_byte frame_sric = 0x7E
type_byte frame_gw_conf = 0x8E

-- The `void *tag` of a frame: NULL, `BAD_ENUM_TAG`, or the address of a client.
pub data Tag : Type 0 where
  null bad_enum_tag : Tag
  owner : ℕ → Tag

abbrev pub tag_eq : Tag → Tag → Bool
tag_eq null null = true
tag_eq bad_enum_tag bad_enum_tag = true
tag_eq (owner c) (owner d) = c == d
tag_eq _ _ = false

-- `frame_t`. The payload is the first `payload_length` bytes of the field.
pub record TxFrame : Type 0 where
  pub kind : FrameType
  pub address : ℕ
  pub tag : Tag
  pub payload : List ℕ

-- `frame`. The payload is the first `payload_length` bytes of the field.
pub record Frame : Type 0 where
  pub source_address : ℕ
  pub dest_address : ℕ
  pub note : ℕ
  pub payload : List ℕ

-- `packed_frame_t`, laid over the receive buffer: `payload` is what stands there behind the
-- header.
pub record PackedFrame : Type 0 where
  pub dest_address : ℕ
  pub source_address : ℕ
  pub payload_len : ℕ
  pub payload : List ℕ

-- The functions that are handed to `g_timeout_add`.
pub data Callback : Type 0 where
  kill_token_timeout send_reset_timeout tx_timeout : Callback
  timeout_callback note_timeout_callback : ℕ → Callback

-- The calls that leave the program.
pub data Effect : Type 0 where
  add_write_watch watch_serial_input listen : Effect
  watch_client_input watch_client_hangup : ℕ → Effect
  timeout_add : ℕ → Callback → Effect
  source_remove : ℕ → Effect
  serial_write : List ℕ → Effect
  client_write : ℕ → List ℕ → Effect

-- What the program takes from GLib and from the compiler. `source_id` is the id that GLib gives to
-- the source which is registered after the calls of the list, newest first; GLib's ids are
-- positive. `shift_out n` is the value of `(uint64_t)1 << n` for an `n` of 64 or more, which C
-- leaves undefined, and `char_is_signed` says which of the two C allows a plain `char` is.
pub record Platform : Type 0 where
  pub source_id : List Effect → ℕ
  pub source_id_pos : (calls : List Effect) → 0 < source_id calls
  pub shift_out : ℕ → ℕ
  pub char_is_signed : Bool

-- `client`, of sricd/client.h. The callbacks are NULL, or `rx_ping` and `note_ping`.
pub record Client : Type 0 where
  pub note_q : List Frame
  pub rx_q : List Frame
  pub fd : ℕ
  pub rx_timer : ℕ
  pub note_timer : ℕ
  pub rx_ping_set : Bool
  pub note_ping_set : Bool
  pub device_note_data_0 : ℕ
  pub device_note_data_1 : ℕ

-- `device_note_target`, of sricd/device.c.
pub record Target : Type 0 where
  pub c : ℕ
  pub flags : ℕ

-- The states of sricd/sric-enum.c.
pub data EnumState : Type 0 where
  idle killing_token resetting enumerating setting_addr setting_gw_addr advancing_token : EnumState
  fetching_classes enumeration_done : EnumState

-- The statics of sricd/sric-enum.c.
pub record Enumeration : Type 0 where
  pub reset_count : ℕ
  pub current_next_address : ℕ
  pub current_addr_info_addr : ℕ
  pub device_classes : ℕ → ℕ
  pub addr_info_replies : ℕ → Bool
  pub state : EnumState

-- The statics of sricd/sric-if.c that change at run time.
pub record Interface : Type 0 where
  pub write_srcid : ℕ
  pub tx_frame : Option TxFrame
  pub txbuf : List ℕ
  pub txlen : ℕ
  pub txpos : ℕ
  pub rxbuf : List ℕ
  pub rxpos : ℕ
  pub unesc_rx : List ℕ
  pub unesc_pos : ℕ
  pub enumerated : Bool
  pub retxmit_timeout_id : ℕ
  pub frame_cancelled : Bool

-- The whole program. A `GQueue` is the list of its entries, the one that is popped next first;
-- `clients` is the heap of clients, by their addresses; `calls` holds the calls made so far, newest
-- first. The arrays are functions of the index.
pub record World : Type 0 where
  pub calls : List Effect
  pub tx_queue_0 : List TxFrame
  pub tx_queue_1 : List TxFrame
  pub iface : Interface
  pub enum : Enumeration
  pub device_types : ℕ → ℕ
  pub targets : ℕ → List Target
  pub clients : ℕ → Option Client

-- How a call ends: it returns, it calls `exit`, an assertion fails, or it does what C leaves
-- undefined (it reads a client that is not allocated, or leaves an array). `no_fuel` is an end
-- that only the model has.
pub data Outcome {ℓ} (A : Type ℓ) : Type ℓ where
  ok : A → Outcome A
  exited aborted fault no_fuel : Outcome A

infixl 5 ◌>>=◌
abbrev pub ◌>>=◌ {ℓ κ} : {A : Type ℓ} {B : Type κ} → Outcome A → (A → Outcome B) → Outcome B
ok a >>= f = f a
exited >>= f = exited
aborted >>= f = aborted
fault >>= f = fault
no_fuel >>= f = no_fuel

abbrev pub update {ℓ} : {A : Type ℓ} → (ℕ → A) → ℕ → A → ℕ → A
update f i v j = if j == i then v else f j

abbrev pub call : Effect → World → World
call e w = record w { calls = e ∷ w.calls }

module _ ⦃env : Platform⦄ where
  -- The id that GLib gives to the source which is registered next.
  abbrev pub next_source_id : World → ℕ
  next_source_id w = env.source_id w.calls

  -- `(uint64_t)1 << n`.
  abbrev pub shifted_one : ℕ → ℕ
  shifted_one n = if ltb n 64 then 2 ^ n else env.shift_out n
