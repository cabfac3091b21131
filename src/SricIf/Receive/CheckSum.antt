-- ===== src/SricIf/Receive/CheckSum.antt =====
-- sricd/sric-if.c: a frame with its check sum passes the tests of `rx`.
use sricd.Base.{
  ℕ, ◌+◌, ◌*◌, ◌/◌, ◌%◌, ◌≤◌, ◌<◌, ◌≡◌, sym, refl, true, List, [], ◌∷◌, ◌++◌, arith, length, get_or,
  length-take, take-append, append_assoc, get_or-append,
}
use sricd.World.{Interface, TxFrame}
use sricd.Escape.Laws.{take_all}
use sricd.Crc16.{crc16}
use sricd.Crc16.Detection.{crc16-lt}
use sricd.SricIf.Receive.{frame_complete}
use sricd.SricIf.Transmit.{frame_head, build_frame}

crc16_prefix : (head ys : List ℕ) → crc16 (head ++ ys) (length head) ≡ crc16 head (length head)
unfolding crc16
crc16_prefix head ys = rw (take-append head ys, take_all head (length head) (omega arith))

get_or-next : (xs ys : List ℕ) (c : ℕ) → get_or (xs ++ c ∷ ys) (length xs + 1) 0 ≡ get_or ys 0 0
get_or-next [] ys c = refl
get_or-next (x ∷ xs) ys c = rw (← get_or-next xs ys c) (ground arith)

pub length-frame_head :
    (f : TxFrame) → length f.payload ≤ 64 → length (frame_head f) ≡ 4 + length f.payload % 256
length-frame_head f h = omega (arith, length-take (length f.payload % 256) f.payload)

bytes_of_sum : (c : ℕ) → c < 65536 → c % 256 + c / 256 % 256 * 256 ≡ c
bytes_of_sum c h = omega arith

-- A check sum behind its text is the one that `rx` looks for.
check_sum_found :
    (head more : List ℕ)
    → let c = crc16 head (length head) in
      let text = head ++ c % 256 ∷ c / 256 % 256 ∷ more in
      crc16 text (length head) ≡ get_or text (length head) 0 + get_or text (length head + 1) 0 * 256
check_sum_found head more =
    let c = crc16 head (length head) in
    rw
      (
        crc16_prefix head (c % 256 ∷ c / 256 % 256 ∷ more),
        get_or-append head (c % 256 ∷ c / 256 % 256 ∷ more) 0,
        get_or-next head (c / 256 % 256 ∷ more) (c % 256),
      )
      (sym (bytes_of_sum c (crc16-lt head (length head))))

-- The same, where the length of the text is known by another name.
pub check_sum_at :
    (head more : List ℕ) (n k : ℕ)
    → n ≡ length head
    → k ≡ length head
    → let c = crc16 head n in
      let text = (head ++ c % 256 ∷ c / 256 % 256 ∷ []) ++ more in
      crc16 text k ≡ get_or text k 0 + get_or text (k + 1) 0 * 256
check_sum_at head more n k e e' = rw (e, e') (rw append_assoc (check_sum_found head more))

pub complete_text :
    (text : List ℕ) (len : ℕ) (j : Interface)
    → get_or text 3 0 ≡ len
    → crc16 text (4 + len) ≡ get_or text (4 + len) 0 + get_or text (4 + len + 1) 0 * 256
    → frame_complete (record j { unesc_rx = text; unesc_pos = 6 + len }) ≡ true
unfolding frame_complete
complete_text text len j e sum = ground arith

pub frame_complete_lem :
    (f : TxFrame) (more : List ℕ) (j : Interface)
    → length f.payload ≤ 64
    → frame_complete
        (record j { unesc_rx = build_frame f ++ more; unesc_pos = 6 + length f.payload % 256 })
      ≡ true
unfolding build_frame
frame_complete_lem f more j h =
    let head = frame_head f in
    let found = rw (length-frame_head f h) at (check_sum_found head more) in
    complete_text (build_frame f ++ more) (length f.payload % 256) j refl (rw append_assoc found)
