-- ===== src/Ipc/Requests.antt =====
-- sricd/ipc.c: what the socket of a client gives for a request, and the request to send a frame.
use sricd.Base.{
  ℕ, ◌+◌, ◌*◌, ◌/◌, ◌%◌, Bool, false, not, List, [], ◌∷◌, Option, none, some, ltb, ◌==◌,
  if◌then◌else◌, length, get_or,
}
use sricd.World.{
  World, Platform, TxFrame, frame_sric, owner, Outcome, ok, fault, call, client_write,
}
use sricd.OutputQueue.{pri_1, txq_push}
use sricd.Device.{device_exists, device_high_address}

-- The requests of a client.
abbrev pub sricd_tx : ℕ
sricd_tx = 0

abbrev pub sricd_note_flags : ℕ
sricd_note_flags = 1

abbrev pub sricd_poll_rx : ℕ
sricd_poll_rx = 2

abbrev pub sricd_poll_note : ℕ
sricd_poll_note = 3

abbrev pub sricd_note_clear : ℕ
sricd_note_clear = 4

abbrev pub sricd_list_devices : ℕ
sricd_list_devices = 5

-- The results sent to a client.
abbrev pub e_success : ℕ
e_success = 0

abbrev pub e_badaddr : ℕ
e_badaddr = 1

abbrev pub e_timeout : ℕ
e_timeout = 2

abbrev pub e_badrequest : ℕ
e_badrequest = 3

-- What the socket holds for one request: the bytes that the k-th `read` of the handler returns, or
-- `none` for -1; and what the variable that it reads into holds if it fails, as the code reads it.
pub record Input : Type 0 where
  pub reads : ℕ → Option (List ℕ)
  pub memory : ℕ → ℕ

-- The bytes, if as many were read as asked for.
abbrev pub read_data : Option (List ℕ) → ℕ → Option (List ℕ)
read_data none n = none
read_data (some bytes) n = if length bytes == n then some bytes else none

unfoldable pub write_result : ℕ → ℕ → World → World
write_result fd result w = call (client_write fd (result ∷ [])) w

-- The number whose bytes in network order follow the digits `n`.
unfoldable pub network_order : ℕ → List ℕ → ℕ
network_order n [] = n
network_order n (b ∷ bytes) = network_order (n * 256 + b) bytes

-- The bytes of a `uint16_t` in network order.
abbrev pub htons : ℕ → List ℕ
htons n = n / 256 % 256 ∷ n % 256 ∷ []

-- The frame of a request, from its header and its payload.
abbrev pub requested_frame : ℕ → List ℕ → List ℕ → TxFrame
requested_frame c header payload = record {
  kind = frame_sric;
  address = get_or header 0 0 + get_or header 1 0 * 256;
  tag = owner c;
  payload = payload;
}

-- Whether the read leaves the 64 bytes of the payload field.
abbrev pub overruns : Option (List ℕ) → Bool
overruns none = false
overruns (some bytes) = ltb 64 (length bytes)

module _ ⦃env : Platform⦄ where
  -- The end of `handle_tx`. An address beyond the table is read all the same.
  unfoldable pub submit : ℕ → TxFrame → World → Outcome World
  submit fd frame w =
      if not (ltb frame.address device_high_address)
      then fault
      else if not (device_exists frame.address w)
      then ok (write_result fd e_badaddr w)
      else ok (write_result fd e_success (txq_push frame pri_1 w))

  -- `handle_tx` once the header is read.
  unfoldable pub read_payload : ℕ → ℕ → List ℕ → Option (List ℕ) → World → Outcome World
  read_payload fd c header second w =
      if overruns second
      then fault
      else elim (read_data second (get_or header 2 0 + get_or header 3 0 * 256)) [
        | none ↦ ok (write_result fd e_badrequest w)
        | some payload ↦ submit fd (requested_frame c header payload) w
      ]

  unfoldable pub handle_tx : ℕ → ℕ → Input → World → Outcome World
  handle_tx fd c input w = elim (read_data (input.reads 1) 4) [
    | none ↦ ok (write_result fd e_badrequest w)
    | some header ↦ read_payload fd c header (input.reads 2) w
  ]
