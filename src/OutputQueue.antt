-- ===== src/OutputQueue.antt =====
-- sricd/output-queue.c: the transmit queue with its two priorities.
pub mod Laws
use sricd.Base.{
  ℕ, Bool, true, false, not, ◌&&◌, List, [], ◌∷◌, ◌++◌, Option, none, some, if◌then◌else◌,
}
use sricd.World.{World, Platform, Tag, TxFrame, tag_eq}
use sricd.SricIf.Ready.{sric_if_tx_ready, sric_if_cancel}

-- A `pri` for which `pri < 2` holds. The first is for acknowledgements and the enumeration.
pub data Priority : Type 0 where
  pri_0 pri_1 : Priority

unfoldable pub txq_init : World → World
txq_init w = record w { tx_queue_0 = []; tx_queue_1 = [] }

-- `g_queue_push_head(tx_queue[pri], e)`.
unfoldable pub push_head : TxFrame → Priority → World → World
push_head tx pri_0 w = record w { tx_queue_0 = w.tx_queue_0 ++ tx ∷ [] }
push_head tx pri_1 w = record w { tx_queue_1 = w.tx_queue_1 ++ tx ∷ [] }

module _ ⦃env : Platform⦄ where
  unfoldable pub txq_push : TxFrame → Priority → World → World
  unfolding push_head
  txq_push tx pri w = sric_if_tx_ready (push_head tx pri w)

-- `g_queue_pop_tail(tx_queue[pri])`, given that queue.
unfoldable pub pop_tail : Priority → List TxFrame → World → Option TxFrame × World
pop_tail pri [] w = (none, w)
pop_tail pri_0 (tx ∷ rest) w = (some tx, record w { tx_queue_0 = rest })
pop_tail pri_1 (tx ∷ rest) w = (some tx, record w { tx_queue_1 = rest })

-- The round of the loop of `txq_next` for the second queue.
abbrev pub next_round : Priority → Option TxFrame × World → Option TxFrame × World
next_round max_pri (some tx, w) = (some tx, w)
next_round pri_0 (none, w) = (none, w)
next_round pri_1 (none, w) = pop_tail pri_1 w.tx_queue_1 w

unfoldable pub txq_next : Priority → World → Option TxFrame × World
unfolding pop_tail
txq_next max_pri w = next_round max_pri (pop_tail pri_0 w.tx_queue_0 w)

abbrev is_empty : List TxFrame → Bool
is_empty [] = true
is_empty (_ ∷ _) = false

unfoldable pub txq_empty : World → Bool
txq_empty w = is_empty w.tx_queue_0 && is_empty w.tx_queue_1

-- `g_queue_foreach` with `rm_tag_frames`: what is left of a queue.
unfoldable pub rm_tag_frames : Tag → List TxFrame → List TxFrame
rm_tag_frames tag [] = []
rm_tag_frames tag (f ∷ fs) =
    if tag_eq f.tag tag then rm_tag_frames tag fs else f ∷ rm_tag_frames tag fs

unfoldable pub txq_cancel : Tag → World → World
unfolding rm_tag_frames
txq_cancel tag w = sric_if_cancel tag (record w {
  tx_queue_0 = rm_tag_frames tag w.tx_queue_0;
  tx_queue_1 = rm_tag_frames tag w.tx_queue_1;
})
