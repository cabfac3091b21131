-- ===== src/OutputQueue/Laws.antt =====
-- sricd/output-queue.c: two first-in-first-out queues, the first served before the second.
use sricd.Base.{
  Bool, Bool-cases, inl, inr, ◌||◌, ◌≢◌, ==_refl, ℕ, zero, suc, ◌<◌, ◌≡◌, ◌∙◌, refl, sym, ap, true,
  false, List, [], ◌∷◌, ◌++◌, Option, none, some, arith, length, append_assoc, if◌then◌else◌,
}
use sricd.World.{World, Platform, Tag, TxFrame, tag_eq, null, bad_enum_tag, owner}
use sricd.SricIf.Ready.{sric_if_tx_ready, sric_if_cancel, tx_frame_has_tag}
use sricd.OutputQueue.{
  Priority, pri_0, pri_1, txq_push, txq_next, txq_empty, txq_cancel, rm_tag_frames,
}

-- The frames that a caller of `txq_next` can reach, in the order in which it gets them.
abbrev pub visible : Priority → World → List TxFrame
visible pri_0 w = w.tx_queue_0
visible pri_1 w = w.tx_queue_0 ++ w.tx_queue_1

-- The frames that such a caller cannot reach.
abbrev pub hidden : Priority → World → List TxFrame
hidden pri_0 w = w.tx_queue_1
hidden pri_1 w = []

-- The two worlds differ in the queues at most.
abbrev pub SameButQueues : World → World → Type 0
SameButQueues w w' = record w' { tx_queue_0 = w.tx_queue_0; tx_queue_1 = w.tx_queue_1 } ≡ w

abbrev pub first_of : List TxFrame → Option TxFrame
first_of [] = none
first_of (f ∷ fs) = some f

abbrev pub rest_of : List TxFrame → List TxFrame
rest_of [] = []
rest_of (f ∷ fs) = fs

pops :
    (pri : Priority) (w : World) (q0 q1 : List TxFrame)
    → let v = record w { tx_queue_0 = q0; tx_queue_1 = q1 } in
      ((txq_next pri v).0 ≡ first_of (visible pri v))
      × (visible pri (txq_next pri v).1 ≡ rest_of (visible pri v))
      × (hidden pri (txq_next pri v).1 ≡ hidden pri v)
      × ((txq_next pri v).1.tx_queue_0 ≡ rest_of v.tx_queue_0)
      × SameButQueues v (txq_next pri v).1
unfolding txq_next
pops pri_0 w [] q1 = (refl, refl, refl, refl, refl)
pops pri_0 w (f ∷ q0) q1 = (refl, refl, refl, refl, refl)
pops pri_1 w [] [] = (refl, refl, refl, refl, refl)
pops pri_1 w [] (f ∷ q1) = (refl, refl, refl, refl, refl)
pops pri_1 w (f ∷ q0) q1 = (refl, refl, refl, refl, refl)

-- `txq_next` returns the first frame that it can reach, or NULL if there is none, and takes exactly
-- that frame out: what it can reach is without its first frame, what it cannot reach is as it was,
-- the first queue is without its first frame, and nothing but the two queues is changed.
pub txq_next_lem :
    (pri : Priority) (w : World)
    → ((txq_next pri w).0 ≡ first_of (visible pri w))
      × (visible pri (txq_next pri w).1 ≡ rest_of (visible pri w))
      × (hidden pri (txq_next pri w).1 ≡ hidden pri w)
      × ((txq_next pri w).1.tx_queue_0 ≡ rest_of w.tx_queue_0)
      × SameButQueues w (txq_next pri w).1
txq_next_lem pri w = pops pri w w.tx_queue_0 w.tx_queue_1

module _ ⦃env : Platform⦄ where
  -- A frame pushed at the second priority is served after all others, one pushed at the first
  -- before all of the second queue and after those of the first; and the write watch is registered.
  pub txq_push_lem :
      (f : TxFrame) (w : World)
      → (visible pri_1 (txq_push f pri_1 w) ≡ visible pri_1 w ++ f ∷ [])
        × (visible pri_1 (txq_push f pri_0 w) ≡ w.tx_queue_0 ++ f ∷ w.tx_queue_1)
        × (0 < (txq_push f pri_0 w).iface.write_srcid)
        × (0 < (txq_push f pri_1 w).iface.write_srcid)
  unfolding txq_push sric_if_tx_ready
  txq_push_lem f w = (
    sym (append_assoc w.tx_queue_0 w.tx_queue_1 (f ∷ [])),
    append_assoc w.tx_queue_0 (f ∷ []) w.tx_queue_1,
    ground (arith, env.source_id_pos w.calls),
    ground (arith, env.source_id_pos w.calls),
  )

-- What repeated calls of `txq_next` return, until NULL.
pub drain : ℕ → Priority → World → List TxFrame
drain zero pri w = []
drain (suc n) pri w = elim ((txq_next pri w).0) [
  | none ↦ []
  | some f ↦ f ∷ drain n pri (txq_next pri w).1
]

drain_from :
    (fs : List TxFrame) (pri : Priority) (w : World)
    → visible pri w ≡ fs
    → drain (length fs) pri w ≡ fs
unfolding drain
drain_from [] pri w e = refl
drain_from (f ∷ fs) pri w e =
    let next = txq_next_lem pri w in
    rw (next.0 ∙ ap first_of e, drain)
      (ap (◌∷◌ f) (drain_from fs pri (txq_next pri w).1 (next.1 ∙ ap rest_of e)))

-- Calls of `txq_next` hand out all frames in reach, each once: the first queue, oldest first, and
-- then, if it may be looked at, the second, oldest first.
pub drain_lem : (pri : Priority) (w : World) → drain (length (visible pri w)) pri w ≡ visible pri w
drain_lem pri w = drain_from (visible pri w) pri w refl

abbrev pub is_null : Option TxFrame → Bool
is_null none = true
is_null (some f) = false

empty_cases :
    (w : World) (q0 q1 : List TxFrame)
    → let v = record w { tx_queue_0 = q0; tx_queue_1 = q1 } in
      txq_empty v ≡ is_null (txq_next pri_1 v).0
unfolding txq_empty txq_next
empty_cases w [] [] = refl
empty_cases w [] (f ∷ q1) = refl
empty_cases w (f ∷ q0) [] = refl
empty_cases w (f ∷ q0) (g ∷ q1) = refl

-- `txq_empty` returns true exactly if `txq_next`, which may look at both queues, returns NULL.
pub txq_empty_lem : (w : World) → txq_empty w ≡ is_null (txq_next pri_1 w).0
txq_empty_lem w = empty_cases w w.tx_queue_0 w.tx_queue_1

tag_eq_sound : (a b : Tag) → tag_eq a b ≡ true → a ≡ b
tag_eq_sound null null h = refl
tag_eq_sound bad_enum_tag bad_enum_tag h = refl
tag_eq_sound (owner c) (owner d) h = ground arith
tag_eq_sound null bad_enum_tag h = cc
tag_eq_sound null (owner d) h = cc
tag_eq_sound bad_enum_tag null h = cc
tag_eq_sound bad_enum_tag (owner d) h = cc
tag_eq_sound (owner c) null h = cc
tag_eq_sound (owner c) bad_enum_tag h = cc

-- The second list is the first without the frames that carry the tag: the others are all there, in
-- their order.
pub data Without (tag : Tag) : List TxFrame → List TxFrame → Type 0 where
  done : Without tag [] []
  dropped :
      (f : TxFrame) {fs gs : List TxFrame}
      → f.tag ≡ tag
      → Without tag fs gs
      → Without tag (f ∷ fs) gs
  kept :
      (f : TxFrame) {fs gs : List TxFrame}
      → f.tag ≢ tag
      → Without tag fs gs
      → Without tag (f ∷ fs) (f ∷ gs)

-- The frames of a list that carry the tag.
abbrev pub tagged : Tag → List TxFrame → List TxFrame
tagged tag [] = []
tagged tag (f ∷ fs) = if tag_eq f.tag tag then f ∷ tagged tag fs else tagged tag fs

tag_eq_other : (a b : Tag) → a ≢ b → tag_eq a b ≡ false
tag_eq_other a b other = elim (Bool-cases (tag_eq a b)) [
  | inl same ↦ absurd (other (tag_eq_sound a b same))
  | inr e ↦ e
]

-- None of the frames that are left carries the tag.
pub Without-tagged : (tag : Tag) {fs gs : List TxFrame} → Without tag fs gs → tagged tag gs ≡ []
Without-tagged tag done = refl
Without-tagged tag (dropped f e rest) = Without-tagged tag rest
Without-tagged tag (kept f other rest) = rw (tag_eq_other f.tag tag other) (Without-tagged tag rest)

tag_eq_refl : (a : Tag) → tag_eq a a ≡ true
tag_eq_refl null = refl
tag_eq_refl bad_enum_tag = refl
tag_eq_refl (owner c) = ==_refl c

tag_eq_complete : (a b : Tag) → tag_eq a b ≡ false → a ≢ b
tag_eq_complete a b h = λ e. absurd (cc (ap (λ t. tag_eq a t) e, tag_eq_refl a, h))

rm_tag_frames-Without : (tag : Tag) (fs : List TxFrame) → Without tag fs (rm_tag_frames tag fs)
unfolding rm_tag_frames
rm_tag_frames-Without tag [] = done
rm_tag_frames-Without tag (f ∷ fs) = elim (Bool-cases (tag_eq f.tag tag)) [
  | inl hit ↦ rw hit (dropped f (tag_eq_sound f.tag tag hit) (rm_tag_frames-Without tag fs))
  | inr other ↦ rw other (kept f (tag_eq_complete f.tag tag other) (rm_tag_frames-Without tag fs))
]

-- `txq_cancel` takes out of both queues the frames that carry the tag and no others, and keeps the
-- others in their order; the frame on its way stays in hand, and is marked as cancelled from then
-- on exactly if it carries the tag or was marked before; and nothing else is changed.
pub txq_cancel_lem :
    (tag : Tag) (w : World)
    → let w' = txq_cancel tag w in
      Without tag w.tx_queue_0 w'.tx_queue_0
      × Without tag w.tx_queue_1 w'.tx_queue_1
      × (w'.iface.frame_cancelled
          ≡ (tx_frame_has_tag tag w.iface.tx_frame || w.iface.frame_cancelled))
      × (record (w'.iface) { frame_cancelled = w.iface.frame_cancelled } ≡ w.iface)
      × (record w' { tx_queue_0 = w.tx_queue_0; tx_queue_1 = w.tx_queue_1; iface = w.iface } ≡ w)
unfolding txq_cancel sric_if_cancel
txq_cancel_lem tag w = (
  rm_tag_frames-Without tag w.tx_queue_0,
  rm_tag_frames-Without tag w.tx_queue_1,
  ground arith,
  refl,
  refl,
)
