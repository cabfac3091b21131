-- ===== src/SricEnum/Session.antt =====
-- sricd/sric-enum.c: whole runs of the state machine over the answers of a bus.
use sricd.Base.{
  ◌++◌, ap, sym, append_assoc, append-nil, ℕ, zero, suc, ◌+◌, ◌-◌, ◌≤◌, ◌<◌, ◌≡◌, ◌∙◌, refl, Bool,
  true, false, ◌&&◌, List, [], ◌∷◌, arith, if◌then◌else◌, leb, ltb, length,
}
use sricd.World.{
  TxFrame, bad_enum_tag, World, Platform, PackedFrame, Outcome, enumerating, enumeration_done, ok,
  ◌>>=◌, update,
}
use sricd.SricEnum.{
  bus_command, syscmd_addr_info, add_devices, sric_enum_rx, send_address, send_tok_advance,
  send_addr_info_req, gateway_command, set_state,
}
use sricd.SricEnum.Steps.{
  at_state, fetching, device_present_step, token_back_step, address_taken_step, token_advanced_step,
  fetch_frames, gateway_addressed_step, class_step, last_class_step,
}
use sricd.Device.{device_add}
use sricd.OutputQueue.{txq_push, pri_0}
use sricd.SricIf.Ready.{sric_if_tx_ready}
use sricd.SricEnum.Rounds.{
  address_rounds, class_answers, recorded, AnswersFrom, address_commands, info_requests,
}

module _ ⦃env : Platform⦄ where
  -- The frames reach `sric_enum_rx` one after the other.
  pub receive_all : List PackedFrame → World → Outcome World
  receive_all [] w = ok w
  receive_all (f ∷ fs) w = sric_enum_rx f w >>= λ r. receive_all fs r.0

add_devices-types :
    (m i : ℕ) (w : World) (j : ℕ)
    → (add_devices m i w).device_types j
      ≡ (if leb i j && ltb j (i + m) then w.enum.device_classes j else w.device_types j)
unfolding add_devices
add_devices-types zero i w j = ground arith
add_devices-types (suc m) i w j =
    ground (arith, add_devices-types m (i + 1) (device_add i (w.enum.device_classes i) w) j)

add_devices-queue : (m i : ℕ) (w : World) → (add_devices m i w).tx_queue_0 ≡ w.tx_queue_0
unfolding add_devices
add_devices-queue zero i w = refl
add_devices-queue (suc m) i w =
    add_devices-queue m (i + 1) (device_add i (w.enum.device_classes i) w)

-- The enumeration is over, and the devices 2 to `n - 1` are registered with the classes given.
abbrev pub Registered : ℕ → (ℕ → ℕ) → (ℕ → ℕ) → World → Type 0
Registered n classes types w' =
    (w'.enum.state ≡ enumeration_done)
    × ((j : ℕ) → w'.device_types j ≡ (if leb 2 j && ltb j n then classes j else types j))

Registered-along :
    (n : ℕ) (answers : List (ℕ × ℕ)) (w' : World) {classes classes' types types' : ℕ → ℕ}
    → classes ≡ classes'
    → types ≡ types'
    → Registered n (recorded answers classes) types w'
    → Registered n (recorded answers classes') types' w'
Registered-along n answers w' p q r = rw (← p, ← q) r

-- Those that are sent while the answers come in: one for each but the last.
abbrev asked_next : List (ℕ × ℕ) → ℕ → List TxFrame
asked_next [] k = []
asked_next (x ∷ []) k = []
asked_next (x ∷ y ∷ rest) k =
    bus_command k bad_enum_tag (syscmd_addr_info ∷ []) ∷ asked_next (y ∷ rest) (k + 1)

asked_next-info_requests :
    (rest : List (ℕ × ℕ)) (m k : ℕ) → length rest ≡ suc m → asked_next rest k ≡ info_requests m k
asked_next-info_requests [] m k e = absurd (omega arith)
asked_next-info_requests (x ∷ []) zero k e = refl
asked_next-info_requests (x ∷ []) (suc m) k e = absurd (omega arith)
asked_next-info_requests (x ∷ y ∷ rest) zero k e = absurd (omega arith)
asked_next-info_requests (x ∷ y ∷ rest) (suc m) k e =
    ap (◌∷◌ (bus_command k bad_enum_tag (syscmd_addr_info ∷ [])))
      (asked_next-info_requests (y ∷ rest) m (k + 1) (omega arith))

three_pushed :
    (f g h : TxFrame) (queue more : List TxFrame)
    → (((queue ++ f ∷ []) ++ g ∷ []) ++ h ∷ []) ++ more ≡ queue ++ f ∷ g ∷ h ∷ more
three_pushed f g h queue more =
    append_assoc ((queue ++ f ∷ []) ++ g ∷ []) (h ∷ []) more
    ∙ append_assoc (queue ++ f ∷ []) (g ∷ []) (h ∷ more)
    ∙ append_assoc queue (f ∷ []) (g ∷ h ∷ more)

module _ ⦃env : Platform⦄ where
  fetch_loop :
      (rest : List (ℕ × ℕ)) (n k : ℕ) (classes : ℕ → ℕ) (replies : ℕ → Bool) (w : World)
      → AnswersFrom n rest
      → 2 ≤ n
      → n ≤ 128
      → k + length rest ≡ n + 1
      → 0 < length rest
      → (w' : World) × (receive_all (class_answers rest) (fetching n k classes replies w) ≡ ok w')
        × Registered n (recorded rest classes) w.device_types w'
        × (w'.tx_queue_0 ≡ w.tx_queue_0 ++ asked_next rest k)
  unfolding receive_all send_addr_info_req txq_push sric_if_tx_ready
  fetch_loop [] n k classes replies w from low high count some_left = absurd (omega arith)
  fetch_loop ((d, c) ∷ []) n k classes replies w from low high count some_left =
      let last : k ≡ n = omega arith in
      let final = fetching n n (update classes d c) (update replies d true) w in
      rw last (
        set_state enumeration_done (add_devices (n - 2) 2 final),
        rw (last_class_step n d c classes replies w from.0 from.1),
        (refl, λ j. ground (arith, add_devices-types (n - 2) 2 final j)),
        add_devices-queue (n - 2) 2 final ∙ sym (append-nil w.tx_queue_0),
      )
  fetch_loop ((d, c) ∷ a ∷ rest) n k classes replies w from low high count some_left =
      let ih =
        fetch_loop (a ∷ rest) n (k + 1) (update classes d c) (update replies d true)
          (send_addr_info_req k w) from.2 low high (omega arith) (omega arith) in
      (
        ih.0,
        rw (class_step n k d c classes replies w from.0 from.1 (omega arith) high) ih.1,
        ih.2,
        ih.3
            ∙ append_assoc w.tx_queue_0 (bus_command k bad_enum_tag (syscmd_addr_info ∷ []) ∷ [])
                (asked_next (a ∷ rest) (k + 1)),
      )

  address_loop :
      (n a : ℕ) (rest : List PackedFrame) (w : World)
      → a + n < 128
      → (w' : World) × (receive_all (address_rounds n a rest) (at_state enumerating a w)
          ≡ receive_all rest (fetching (a + n + 1) 3 w'.enum.device_classes (λ _. false) w'))
        × (w'.enum.device_classes ≡ w.enum.device_classes)
        × (w'.device_types ≡ w.device_types)
        × (w'.tx_queue_0 ≡ w.tx_queue_0 ++ address_commands n a)
  unfolding receive_all send_address send_tok_advance send_addr_info_req txq_push sric_if_tx_ready
  address_loop zero a rest w h =
      let same : a + 0 + 1 ≡ a + 1 = omega arith in
      (
        fetch_frames (send_address a w),
        rw (
          token_back_step a w (omega arith),
          gateway_addressed_step a (send_address a w) (omega arith),
          same,
        ),
        refl,
        refl,
        three_pushed _ _ _ w.tx_queue_0 _,
      )
  address_loop (suc n) a rest w h =
      let w1 = send_address a w in
      let w2 = send_tok_advance a w1 in
      let w3 = txq_push (gateway_command (2 ∷ [])) pri_0 w2 in
      let ih = address_loop n (a + 1) rest w3 (omega arith) in
      let same : a + suc n + 1 ≡ a + 1 + n + 1 = omega arith in
      (
        ih.0,
        rw
            (
              device_present_step a w (omega arith),
              address_taken_step a w1 (omega arith),
              token_advanced_step a w2 (omega arith),
              same,
            )
            ih.1,
        ih.2,
        ih.3,
        ih.4 ∙ three_pushed _ _ _ w.tx_queue_0 (address_commands n (a + 1)),
      )

  pub enumeration_completes :
      (n : ℕ) (answers : List (ℕ × ℕ)) (w : World)
      → n ≤ 125
      → AnswersFrom (n + 3) answers
      → length answers ≡ n + 1
      → (w' : World) × (receive_all
            (address_rounds n 2 (class_answers answers))
            (at_state enumerating 2 w)
          ≡ ok w')
        × Registered (n + 3) (recorded answers w.enum.device_classes) w.device_types w'
        × (w'.tx_queue_0 ≡ w.tx_queue_0 ++ (address_commands n 2 ++ info_requests n 3))
  enumeration_completes n answers w h from count =
      let (w1, addressed, same_classes, same_types, queued) =
        address_loop n 2 (class_answers answers) w (omega arith) in
      let count_up : 2 + n + 1 ≡ n + 3 = omega arith in
      let (w2, fetched, done, asked) =
        fetch_loop answers (n + 3) 3 w1.enum.device_classes (λ _. false) w1 from (omega arith)
          (omega arith) (omega arith) (omega arith) in
      (
        w2,
        (rw count_up at addressed) ∙ fetched,
        Registered-along (n + 3) answers w2 same_classes same_types done,
        asked
            ∙ ap (λ q. w1.tx_queue_0 ++ q) (asked_next-info_requests answers n 3 (omega arith))
            ∙ ap (λ q. q ++ info_requests n 3) queued
            ∙ append_assoc w.tx_queue_0 (address_commands n 2) (info_requests n 3),
      )
