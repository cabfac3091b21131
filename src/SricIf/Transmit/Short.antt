-- ===== src/SricIf/Transmit/Short.antt =====
-- sricd/sric-if.c: a frame that the port takes in pieces.
use sricd.Base.{
  ℕ, zero, suc, ◌+◌, ◌-◌, ◌<◌, ◌≡◌, ◌∙◌, ap, sym, refl, Bool, List, [], ◌∷◌, ◌++◌, none, some,
  arith, take, drop, if◌then◌else◌,
}
use sricd.World.{World, Platform, TxFrame, Outcome, ok, ◌>>=◌, call, serial_write}
use sricd.SricIf.Transmit.{expects_ack, if_tx, written, write_rest}
use sricd.SricIf.Transmit.Retry.{newly_written, newly_written_lem, written_silent}

-- The sum of the values that `write` returns, each of them positive.
abbrev pub total : List ℕ → ℕ
total [] = 0
total (n ∷ ns) = n + total ns

abbrev pub AllPositive : List ℕ → Type 0
AllPositive [] = Unit {0}
AllPositive (n ∷ ns) = (0 < n) × AllPositive ns

module _ ⦃env : Platform⦄ where
  -- The port is ready as often as there are numbers, and takes so many bytes of those offered. The
  -- second part of the result is all that it took.
  unfoldable pub write_all : List ℕ → World → Outcome (World × List ℕ)
  unfolding if_tx
  write_all [] w = ok (w, [])
  write_all (n ∷ ns) w = do
    (v, _) ← if_tx (some n) w
    (u, taken) ← write_all ns v
    ok (u, take n (newly_written w v) ++ taken)

  abbrev pub unsent : World → List ℕ
  unsent w = take (w.iface.txlen - w.iface.txpos) (drop w.iface.txpos w.iface.txbuf)

  -- What is left of the frame in hand is offered.
  offers_rest :
      (n : ℕ) (f : TxFrame) (w : World)
      → w.iface.tx_frame ≡ some f
      → w.iface.txpos < w.iface.txlen
      → if_tx (some n) w ≡ ok (written n (call (serial_write (unsent w)) w))
  unfolding if_tx write_rest
  offers_rest n f w held more = ground arith

  -- Where the frame stands, in the text of `w`.
  pub record Partly (f : TxFrame) (pos : ℕ) (w v : World) : Type 0 where
    pub in_hand : v.iface.tx_frame ≡ some f
    pub position : v.iface.txpos ≡ pos
    pub text : v.iface.txbuf ≡ w.iface.txbuf
    pub text_length : v.iface.txlen ≡ w.iface.txlen
    pub watch : v.iface.write_srcid ≡ w.iface.write_srcid
    pub enum : v.enum ≡ w.enum
    pub queue_0 : v.tx_queue_0 ≡ w.tx_queue_0
    pub queue_1 : v.tx_queue_1 ≡ w.tx_queue_1

  written_part :
      (n : ℕ) (f : TxFrame) (w : World)
      → w.iface.tx_frame ≡ some f
      → w.iface.txlen < 256
      → w.iface.txpos + n < w.iface.txlen
      → Partly f (w.iface.txpos + n) w (written n w).0
  unfolding written
  written_part n f w held small less = ground arith

  -- The frame has gone out: it stays in hand exactly if its sender waits for an acknowledgement,
  -- and then the watch is removed; the text and the queues are as they were.
  pub record SentAll (f : TxFrame) (w v : World) : Type 0 where
    pub in_hand : v.iface.tx_frame ≡ (if expects_ack (some f) then some f else none)
    pub position : v.iface.txpos ≡ w.iface.txlen
    pub watch : v.iface.write_srcid ≡ (if expects_ack (some f) then 0 else w.iface.write_srcid)
    pub text : v.iface.txbuf ≡ w.iface.txbuf
    pub enum : v.enum ≡ w.enum
    pub queue_0 : v.tx_queue_0 ≡ w.tx_queue_0
    pub queue_1 : v.tx_queue_1 ≡ w.tx_queue_1

  written_last :
      (n : ℕ) (f : TxFrame) (w : World)
      → w.iface.tx_frame ≡ some f
      → w.iface.txlen < 256
      → w.iface.txpos + n ≡ w.iface.txlen
      → SentAll f w (written n w).0
  unfolding written
  written_last n f w held small full = ground arith

take_nil : (k : ℕ) → ◌≡◌ {A = List ℕ} (take k []) []
take_nil zero = refl
take_nil (suc k) = refl

drop_nil : (k : ℕ) → ◌≡◌ {A = List ℕ} (drop k []) []
drop_nil zero = refl
drop_nil (suc k) = refl

take_split :
    (n k : ℕ) (xs : List ℕ) → take n (take (n + k) xs) ++ take k (drop n xs) ≡ take (n + k) xs
take_split zero k xs = let none_first : 0 + k ≡ k = omega arith in rw none_first refl
take_split (suc n) k [] =
    let some_first : suc n + k ≡ suc (n + k) = omega arith in rw some_first (take_nil k)
take_split (suc n) k (x ∷ xs) =
    let some_first : suc n + k ≡ suc (n + k) = omega arith in
    rw some_first (ap (◌∷◌ x) (take_split n k xs))

drop-drop : (n p : ℕ) (xs : List ℕ) → drop n (drop p xs) ≡ drop (p + n) xs
drop-drop n zero xs = let none_first : 0 + n ≡ n = omega arith in rw none_first refl
drop-drop n (suc p) [] =
    let some_first : suc p + n ≡ suc (p + n) = omega arith in rw some_first (drop_nil n)
drop-drop n (suc p) (x ∷ xs) =
    let some_first : suc p + n ≡ suc (p + n) = omega arith in rw some_first (drop-drop n p xs)

module _ ⦃env : Platform⦄ where
  unsent_part :
      (n : ℕ) (f : TxFrame) (w v : World)
      → w.iface.txpos + n < w.iface.txlen
      → Partly f (w.iface.txpos + n) w v
      → take n (unsent w) ++ unsent v ≡ unsent w
  unsent_part n f w v less p =
      let k = w.iface.txlen - (w.iface.txpos + n) in
      let whole : n + k ≡ w.iface.txlen - w.iface.txpos = omega arith in
      let left : v.iface.txlen - v.iface.txpos ≡ k = omega (arith, p.position, p.text_length) in
      let rest = drop w.iface.txpos w.iface.txbuf in
      let here : unsent v ≡ take k (drop n rest) =
        ap (λ j. take j (drop v.iface.txpos v.iface.txbuf)) left
        ∙ ap (λ j. take k (drop j v.iface.txbuf)) p.position
        ∙ ap (λ b. take k (drop (w.iface.txpos + n) b)) p.text
        ∙ ap (take k) (sym (drop-drop n w.iface.txpos w.iface.txbuf)) in
      ap (λ l. take n (unsent w) ++ l) here
      ∙ ap (λ j. take n (take j rest) ++ take k (drop n rest)) (sym whole)
      ∙ take_split n k rest
      ∙ ap (λ j. take j rest) whole

  SentAll-Partly :
      (n : ℕ) (f : TxFrame) (w v u : World) → Partly f n w v → SentAll f v u → SentAll f w u
  SentAll-Partly n f w v u p d = ground arith

  SentAll-call :
      (bytes : List ℕ) (f : TxFrame) (w v : World)
      → SentAll f (call (serial_write bytes) w) v
      → SentAll f w v
  SentAll-call bytes f w v d = record {
    in_hand = d.in_hand;
    position = d.position;
    watch = d.watch;
    text = d.text;
    enum = d.enum;
    queue_0 = d.queue_0;
    queue_1 = d.queue_1;
  }

  -- One `write`, and those after it.
  one_write :
      (n : ℕ) (ns : List ℕ) (f : TxFrame) (w u : World) (taken : List ℕ)
      → w.iface.tx_frame ≡ some f
      → w.iface.txpos < w.iface.txlen
      → write_all ns (written n (call (serial_write (unsent w)) w)).0 ≡ ok (u, taken)
      → write_all (n ∷ ns) w ≡ ok (u, take n (unsent w) ++ taken)
  unfolding write_all
  one_write n ns f w u taken held more rest =
      let v0 = call (serial_write (unsent w)) w in
      let v = (written n v0).0 in
      ap
        (λ m. m >>= λ (r : World × Bool). write_all ns r.0 >>= λ (s : World × List ℕ).
          ok (s.0, take n (newly_written w r.0) ++ s.1))
        (offers_rest n f w held more)
      ∙ ap (λ m. m >>= λ (s : World × List ℕ). ok (s.0, take n (newly_written w v) ++ s.1)) rest
      ∙ ap (λ b. ok (u, take n b ++ taken)) (newly_written_lem (unsent w) w v (written_silent n v0))

  pub write_all_lem :
      (ns : List ℕ) (f : TxFrame) (w : World)
      → w.iface.tx_frame ≡ some f
      → w.iface.txlen < 256
      → w.iface.txpos < w.iface.txlen
      → AllPositive ns
      → w.iface.txpos + total ns ≡ w.iface.txlen
      → (v : World) × (write_all ns w ≡ ok (v, unsent w)) × SentAll f w v
  unfolding write_all
  write_all_lem [] f w held small more pos sum = absurd (omega arith)
  write_all_lem (n ∷ []) f w held small more pos sum =
      let v0 = call (serial_write (unsent w)) w in
      let v = (written n v0).0 in
      let size : w.iface.txlen - w.iface.txpos ≡ n + 0 = omega arith in
      let all : take n (unsent w) ++ [] ≡ unsent w =
        ap (λ j. take n (take j (drop w.iface.txpos w.iface.txbuf)) ++ []) size
        ∙ take_split n 0 (drop w.iface.txpos w.iface.txbuf)
        ∙ ap (λ j. take j (drop w.iface.txpos w.iface.txbuf)) (sym size) in
      (
        v,
        one_write n [] f w v [] held more refl ∙ ap (λ b. ok (v, b)) all,
        SentAll-call (unsent w) f w v (written_last n f v0 held small (omega arith)),
      )
  write_all_lem (n ∷ m ∷ ns) f w held small more pos sum =
      let v0 = call (serial_write (unsent w)) w in
      let v = (written n v0).0 in
      let less : w.iface.txpos + n < w.iface.txlen = omega arith in
      let p = written_part n f v0 held small less in
      let (u, rest, done) =
        write_all_lem (m ∷ ns) f v p.in_hand (omega (arith, p.text_length))
          (omega (arith, p.text_length, p.position)) pos.1
          (omega (arith, p.text_length, p.position)) in
      (
        u,
        one_write n (m ∷ ns) f w u (unsent v) held more rest
            ∙ ap (λ b. ok (u, b)) (unsent_part n f v0 v less p),
        SentAll-call (unsent w) f w u (SentAll-Partly (w.iface.txpos + n) f v0 v u p done),
      )
