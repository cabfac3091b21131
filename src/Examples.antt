-- ===== src/Examples.antt =====
-- The theorems at concrete inputs: a platform, a program that has just started, and frames.
pub mod Clients
pub mod Daemon
pub mod Libsric
pub mod Ostric
pub mod Retries
pub mod Simulation
pub mod StartUp
pub mod Trumpets
use sricd.Base.Int.{pos, negsuc}
use sricd.Base.{
  ◌||◌, ℕ, suc, ◌*◌, ◌^◌, ◌%◌, ◌≤◌, ◌<◌, ◌≡◌, ◌⊎◌, refl, inl, true, false, not, List, [], ◌∷◌, ◌++◌,
  none, some, arith, length, take, overwrite, replicate,
}
use sricd.World.{
  World, Platform, Interface, TxFrame, frame_sric, owner, idle, enumerating, enumeration_done, ok,
  exited,
}
use sricd.World.Ensures.{Ensures}
use sricd.Escape.{escape_frame, unescape, unescape_frame}
use sricd.Escape.RoundTrip.{escape_bytes, LacksFraming}
use sricd.Escape.Laws.{
  unescape-escape_frame, escape_frame_overflows, unescape_frame-escape_bytes, unescape_bounds,
}
use sricd.Crc16.Detection.{crc16-detects}
use sricd.OutputQueue.{pri_0, pri_1, txq_push, txq_next, txq_empty, txq_cancel}
use sricd.OutputQueue.Laws.{
  visible, hidden, SameButQueues, Without, drain, txq_next_lem, txq_push_lem, drain_lem, is_null,
  txq_empty_lem, txq_cancel_lem,
}
use sricd.SricIf.Ready.{tx_frame_has_tag}
use sricd.SricIf.Receive.{advance_rx, frame_complete, read_bytes, read_incoming, rx}
use sricd.SricIf.Receive.Bounds.{RxBounds, Advances, advance_rx-Advances}
use sricd.SricIf.Receive.Termination.{rx_terminates}
use sricd.SricIf.Transmit.{build_frame, load_frame}
use sricd.SricIf.Link.{receive-transmit}
use sricd.SricEnum.{sric_enum_rx, state_eq}
use sricd.SricEnum.Steps.{at_state, token_answer}
use sricd.SricEnum.Invariant.{AddressesOk, sric_enum_rx_total}
use sricd.SricEnum.Rounds.{address_commands, info_requests, address_rounds, class_answers, recorded}
use sricd.SricEnum.Session.{receive_all, Registered, enumeration_completes}

instance abbrev pub example_platform : Platform
example_platform = record {
  source_id = λ calls. suc (length calls);
  source_id_pos = λ calls. omega arith;
  shift_out = λ n. 2 ^ (n % 64);
  char_is_signed = true;
}

abbrev pub started_interface : Interface
started_interface = record {
  write_srcid = 0;
  tx_frame = none;
  txbuf = replicate 140 0;
  txlen = 0;
  txpos = 0;
  rxbuf = replicate 140 0;
  rxpos = 0;
  unesc_rx = replicate 70 0;
  unesc_pos = 0;
  enumerated = false;
  retxmit_timeout_id = 0;
  frame_cancelled = false;
}

abbrev pub started : World
started = record {
  calls = [];
  tx_queue_0 = [];
  tx_queue_1 = [];
  iface = started_interface;
  enum = record {
    reset_count = 0;
    current_next_address = 2;
    current_addr_info_addr = 0;
    device_classes = λ _. 0;
    addr_info_replies = λ _. false;
    state = idle;
  };
  device_types = λ _. 255;
  targets = λ _. [];
  clients = λ _. none;
}

-- A frame whose payload holds both framing bytes and the escape byte.
abbrev pub awkward_frame : TxFrame
awkward_frame = record {
  kind = frame_sric;
  address = 5;
  tag = owner 7;
  payload = 0x7E ∷ 0x8E ∷ 0x7D ∷ 1 ∷ [];
}

started_bounds : RxBounds started_interface
started_bounds = record {
  rxbuf_length = refl;
  rxpos_le = omega arith;
  unesc_length = refl;
  unesc_pos_le = omega arith;
}

abbrev framing_text : List ℕ
framing_text = 0x7E ∷ 1 ∷ 0x8E ∷ []

unescape-escape_frame_example :
    (out : List ℕ) × (escape_frame framing_text 2 8
      ≡ record { buffer = overwrite out framing_text; result = pos (length out) })
    × LacksFraming out
    × (unescape (out ++ 0x7E ∷ []) (length (out ++ 0x7E ∷ [])) 4
        ≡ record { spos = length out; out = 0x7E ∷ 1 ∷ [] })
unescape-escape_frame_example =
    unescape-escape_frame framing_text (0x7E ∷ []) 2 8 4 (omega arith) (omega arith) (omega arith)
      (omega arith) (inl refl)

escape_frame_overflows_example :
    ((escape_frame framing_text 2 3).result ≡ negsuc 0)
    × (take 2 (escape_frame framing_text 2 3).buffer ≡ 0x7E ∷ 1 ∷ [])
unfolding sricd.Escape.escape_byte
escape_frame_overflows_example =
    escape_frame_overflows framing_text 2 3 (omega arith) (omega arith) (omega arith)

unescape_frame-escape_bytes_example : unescape_frame (escape_bytes (0x8E ∷ [])) ≡ none
unescape_frame-escape_bytes_example = unescape_frame-escape_bytes (0x8E ∷ [])

crc16-detects_example : (◌≡◌ {A = ℕ} 2 2) × (◌≡◌ {A = ℕ} 3 3)
crc16-detects_example =
    crc16-detects (1 ∷ []) (4 ∷ []) 2 3 2 3 (omega arith, tt)
      (omega arith, omega arith, omega arith, omega arith) refl

abbrev queued : World
queued = record started {
  tx_queue_0 = record awkward_frame { tag = owner 2 } ∷ [];
  tx_queue_1 = awkward_frame ∷ [];
}

txq_next_lem_example :
    ((txq_next pri_0 queued).0 ≡ some (record awkward_frame { tag = owner 2 }))
    × (visible pri_0 (txq_next pri_0 queued).1 ≡ [])
    × (hidden pri_0 (txq_next pri_0 queued).1 ≡ hidden pri_0 queued)
    × ((txq_next pri_0 queued).1.tx_queue_0 ≡ [])
    × SameButQueues queued (txq_next pri_0 queued).1
txq_next_lem_example = txq_next_lem pri_0 queued

drain_lem_example : drain 2 pri_1 queued ≡ visible pri_1 queued
drain_lem_example = drain_lem pri_1 queued

txq_cancel_lem_example :
    let w' = txq_cancel (owner 7) queued in
    Without (owner 7) queued.tx_queue_0 w'.tx_queue_0
    × Without (owner 7) queued.tx_queue_1 w'.tx_queue_1
    × (w'.iface.frame_cancelled
        ≡ (tx_frame_has_tag (owner 7) queued.iface.tx_frame || queued.iface.frame_cancelled))
    × (record (w'.iface) { frame_cancelled = queued.iface.frame_cancelled } ≡ queued.iface)
    × (record w' {
      tx_queue_0 = queued.tx_queue_0;
      tx_queue_1 = queued.tx_queue_1;
      iface = queued.iface;
    }
        ≡ queued)
txq_cancel_lem_example = txq_cancel_lem (owner 7) queued

advance_rx-Advances_example : Advances started_interface (advance_rx started_interface)
advance_rx-Advances_example = advance_rx-Advances started_interface started_bounds

rx_terminates_example : Ensures (λ w'. RxBounds w'.iface) (rx (read_bytes framing_text) started)
rx_terminates_example = rx_terminates framing_text started started_bounds (omega arith)

receive-transmit_example :
    (sent read got : Interface) × (load_frame awkward_frame started_interface ≡ ok sent)
    × (read_incoming (read_bytes (take sent.txlen sent.txbuf)) started_interface ≡ ok read)
    × (advance_rx read ≡ ok (got, true))
    × (frame_complete got ≡ true)
    × (take got.unesc_pos got.unesc_rx ≡ build_frame awkward_frame)
    × (got.rxpos ≡ 0)
receive-transmit_example =
    receive-transmit awkward_frame started_interface started_interface (omega arith) started_bounds
      refl

enumerating_addresses : AddressesOk (at_state enumerating 2 started).enum
enumerating_addresses = record {
  next_low = omega arith;
  next_high = omega arith;
  assigned = λ _. omega arith;
  asked_low = λ e. cc;
  asked_high = λ e. cc;
}

sric_enum_rx_total_example :
    ((w' : World) × (sric_enum_rx (token_answer 0) (at_state enumerating 2 started)
        ≡ ok (w', not (state_eq w'.enum.state enumeration_done)))
      × AddressesOk w'.enum)
    ⊎ ((sric_enum_rx (token_answer 0) (at_state enumerating 2 started) ≡ exited)
        × (enumerating ≡ enumerating)
        × (started.enum.current_next_address ≡ 128))
sric_enum_rx_total_example =
    sric_enum_rx_total (token_answer 0) (at_state enumerating 2 started) enumerating_addresses

enumeration_completes_example :
    (w' : World) × (receive_all
        (address_rounds 2 2 (class_answers ((2, 9) ∷ (3, 4) ∷ (4, 1) ∷ [])))
        (at_state enumerating 2 started)
      ≡ ok w')
    × Registered 5 (recorded ((2, 9) ∷ (3, 4) ∷ (4, 1) ∷ []) (λ _. 0)) (λ _. 255) w'
    × (w'.tx_queue_0 ≡ started.tx_queue_0 ++ (address_commands 2 2 ++ info_requests 2 3))
enumeration_completes_example =
    enumeration_completes 2 ((2, 9) ∷ (3, 4) ∷ (4, 1) ∷ []) started (omega arith)
      (
        omega arith,
        (λ e. omega arith),
        (omega arith, (λ e. omega arith), (omega arith, (λ e. omega arith), tt)),
      )
      refl
