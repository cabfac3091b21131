-- ===== src/SricIf/Transmit/Wire.antt =====
-- sricd/sric-if.c: the bytes that `next_tx` leaves in `txbuf`.
use sricd.Base.Int.{pos}
use sricd.Base.{
  ℕ, suc, ◌+◌, ◌-◌, ◌/◌, ◌%◌, ◌≤◌, ◌<◌, ◌≡◌, refl, true, false, List, [], ◌∷◌, ◌++◌, arith, some,
  length, take, drop, overwrite, length-append, length-take, leb-true, take-append,
}
use sricd.World.{Interface, TxFrame, FrameType, frame_sric, frame_gw_conf, type_byte, ok}
use sricd.Escape.{escape_frame}
use sricd.Escape.RoundTrip.{escape_bytes, escape_bytes_bounds, escape_frame_fits}
use sricd.Crc16.{crc16}
use sricd.SricIf.Receive.{is_framing_byte}
use sricd.SricIf.Transmit.{frame_head, build_frame, load_frame, escape_into_txbuf, txbuf_size}

-- The frame behind its framing byte.
abbrev pub frame_body : TxFrame → List ℕ
frame_body f = drop 1 (build_frame f)

-- The bytes that go over the wire for a frame.
abbrev pub wire_bytes : TxFrame → List ℕ
wire_bytes f = type_byte f.kind ∷ escape_bytes (frame_body f)

pub type_byte-framing : (k : FrameType) → is_framing_byte (type_byte k) ≡ true
type_byte-framing frame_sric = refl
type_byte-framing frame_gw_conf = refl

pub build_frame_lem : (f : TxFrame) → build_frame f ≡ type_byte f.kind ∷ frame_body f
unfolding build_frame
build_frame_lem f = refl

pub length-frame_body :
    (f : TxFrame) → length f.payload ≤ 64 → length (frame_body f) ≡ 5 + length f.payload % 256
unfolding build_frame
length-frame_body f h =
    let n = length f.payload % 256 in
    omega (
      arith,
      length-append (take n f.payload)
          (crc16 (frame_head f) (4 + n) % 256 ∷ crc16 (frame_head f) (4 + n) / 256 % 256 ∷ []),
      length-take n f.payload,
    )

escape_frame_body :
    (body rest : List ℕ)
    → length body ≤ 69
    → escape_frame (body ++ rest) (length body) (txbuf_size - 1) ≡ record {
      buffer = overwrite (escape_bytes body) (body ++ rest);
      result = pos (length (escape_bytes body));
    }
escape_frame_body body rest h =
    let taken = take-append body rest in
    rw taken at (
      escape_frame_fits (body ++ rest) (length body) 139
        (rw taken (omega (arith, escape_bytes_bounds body)))
        (rw taken (omega (arith, escape_bytes_bounds body))))

escape_into_txbuf_lem :
    (t : ℕ) (body : List ℕ) (i : Interface)
    → 0 < length body
    → length body ≤ 69
    → escape_into_txbuf (t ∷ body) (length body) i
      ≡ ok (record i {
        txbuf = t ∷ overwrite (escape_bytes body) (body ++ drop (suc (length body)) i.txbuf);
        txlen = suc (length (escape_bytes body));
        txpos = 0;
      })
unfolding escape_into_txbuf
escape_into_txbuf_lem t body i above h =
    rw
      (
        leb-true (length (t ∷ body)) txbuf_size (omega arith),
        escape_frame_body body (drop (suc (length body)) i.txbuf) h,
      )
      (ground (arith, escape_bytes_bounds body))

-- `load_frame` fills the front of `txbuf` with the bytes for the wire.
pub load_frame_lem :
    (f : TxFrame) (i : Interface)
    → length f.payload ≤ 64
    → (rest : List ℕ) × (load_frame f i
        ≡ ok (record i {
          tx_frame = some f;
          frame_cancelled = false;
          txbuf = wire_bytes f ++ rest;
          txlen = length (wire_bytes f);
          txpos = 0;
        }))
unfolding load_frame
load_frame_lem f i h =
    let body = frame_body f in
    let count = length-frame_body f h in
    (
      drop (length (escape_bytes body)) (body ++ drop (suc (length body)) i.txbuf),
      rw (build_frame_lem f, ← count)
          (escape_into_txbuf_lem (type_byte f.kind) body
            (record i { tx_frame = some f; frame_cancelled = false }) (omega arith) (omega arith)),
    )
