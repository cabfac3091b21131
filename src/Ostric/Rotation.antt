-- ===== src/Ostric/Rotation.antt =====
-- ostric/token.c: where the token is after `advance_token`.
use sricd.Base.{
  ℕ, suc, ◌≤◌, ◌≡◌, ◌∙◌, sym, ap, refl, Bool, true, false, ◌&&◌, ◌||◌, List, [], ◌∷◌, ◌++◌, map,
  arith, if◌then◌else◌, Bool-cases, inl, inr,
}
use sricd.Ostric.{BusClient, Bus, ClientType, generic}
use sricd.Ostric.Generic.{token_callback, generic_token}
use sricd.Ostric.Token.{juggle_token, juggle_loop, advance_token}

-- Who has the token: the clients in order, and the gateway in front of them or behind.
abbrev pub holders : List BusClient → List Bool
holders cs = map (λ c. c.has_token) cs

abbrev pub from_gateway : Bus → List Bool
from_gateway bus = bus.gw_has_token ∷ holders bus.clients

abbrev pub to_gateway : Bus → List Bool
to_gateway bus = holders bus.clients ++ bus.gw_has_token ∷ []

abbrev pub count : List Bool → ℕ
count [] = 0
count (true ∷ bs) = suc (count bs)
count (false ∷ bs) = count bs

-- Whether someone who has the token keeps it.
abbrev pub keeps : BusClient → Bool
keeps c = c.has_token && c.keep_token

abbrev pub any_keeps : List BusClient → Bool
any_keeps [] = false
any_keeps (c ∷ cs) = keeps c || any_keeps cs

abbrev pub held : Bus → Bool
held bus = (bus.gw_keep_token && bus.gw_has_token) || any_keeps bus.clients

-- A client but for the token.
abbrev pub without_token : BusClient → BusClient
without_token c = record c { has_token = false }

pub or_false : (a b : Bool) → (a || b) ≡ false → (a ≡ false) × (b ≡ false)
or_false a b neither = ground arith

pub juggle_token-free :
    (c : BusClient) (on_wire : Bool)
    → keeps c ≡ false
    → juggle_token c on_wire ≡ (record c { has_token = on_wire }, c.has_token)
unfolding juggle_token
juggle_token-free c on_wire free = rw free refl

pub juggle_loop-free :
    (cs : List BusClient) (on_wire : Bool)
    → any_keeps cs ≡ false
    → (holders (juggle_loop cs on_wire).0 ++ (juggle_loop cs on_wire).1 ∷ [] ≡ on_wire ∷ holders cs)
      × (map without_token (juggle_loop cs on_wire).0 ≡ map without_token cs)
unfolding juggle_loop
juggle_loop-free [] on_wire free = (refl, refl)
juggle_loop-free (c ∷ cs) on_wire free =
    let (here, others) = or_false (keeps c) (any_keeps cs) free in
    let (ring, same) = juggle_loop-free cs c.has_token others in
    rw (juggle_token-free c on_wire here) (ap (◌∷◌ on_wire) ring, ap (◌∷◌ (without_token c)) same)

juggle_token-without : (c : BusClient) → c.has_token ≡ false → juggle_token c false ≡ (c, false)
unfolding juggle_token
juggle_token-without c without =
    let same : record c { has_token = false } ≡ c =
      ap (λ b. record c { has_token = b }) (sym without) in
    juggle_token-free c false (ap (λ b. b && c.keep_token) without)
    ∙ ap (λ d. (d, c.has_token)) same
    ∙ ap (λ b. (c, b)) without

count-none : (b : Bool) (bs : List Bool) → count (b ∷ bs) ≡ 0 → (b ≡ false) × (count bs ≡ 0)
count-none true bs e = absurd (omega arith)
count-none false bs e = (refl, e)

-- Nobody has the token, and none is on the wire.
pub juggle_loop-nobody :
    (cs : List BusClient) → count (holders cs) ≡ 0 → juggle_loop cs false ≡ (cs, false)
unfolding juggle_loop
juggle_loop-nobody [] nobody = refl
juggle_loop-nobody (c ∷ cs) nobody =
    let (here, others) = count-none c.has_token (holders cs) nobody in
    rw (juggle_token-without c here, juggle_loop-nobody cs others) refl

and_true : (a b : Bool) → (a && b) ≡ true → a ≡ true
and_true a b both = ground arith

or_right : (a b : Bool) → (a || b) ≡ true → a ≡ false → b ≡ true
or_right a b either not_a = ground arith

pub count_tail : (b : Bool) (bs : List Bool) → count bs ≤ count (b ∷ bs)
count_tail true bs = omega arith
count_tail false bs = omega arith

count_two :
    (a b : Bool) (bs : List Bool)
    → count (a ∷ b ∷ bs) ≤ 1
    → 1 ≤ count bs
    → (a ≡ false) × (b ≡ false) × (count bs ≤ 1)
count_two false false bs one some_one = (refl, refl, one)
count_two true false bs one some_one = absurd (omega arith)
count_two false true bs one some_one = absurd (omega arith)
count_two true true bs one some_one = absurd (omega arith)

count_rest : (a b : Bool) (bs : List Bool) → count (a ∷ b ∷ bs) ≤ 1 → b ≡ true → count bs ≡ 0
count_rest a true bs one here = omega (arith, count_tail a (true ∷ bs))
count_rest a false bs one here = ground arith

any_keeps-count : (cs : List BusClient) → any_keeps cs ≡ true → 1 ≤ count (holders cs)
any_keeps-count [] kept = ground arith
any_keeps-count (c ∷ cs) kept = elim (Bool-cases (keeps c)) [
  | inl here ↦ rw (and_true c.has_token c.keep_token here) (omega arith)
  | inr not_here ↦ omega (
    arith,
    any_keeps-count cs (or_right (keeps c) (any_keeps cs) kept not_here),
    count_tail c.has_token (holders cs),
  )
]

token_callback_same : (t : ClientType) (c : BusClient) → token_callback t c ≡ c
unfolding token_callback generic_token
token_callback_same generic c = refl

juggle_token-kept :
    (c : BusClient) (on_wire : Bool) → keeps c ≡ true → juggle_token c on_wire ≡ (c, false)
unfolding juggle_token
juggle_token-kept c on_wire here = rw (here, token_callback_same c.client_type c) refl

-- The one who has the only token keeps it.
juggle_loop-kept :
    (cs : List BusClient) (on_wire : Bool)
    → count (on_wire ∷ holders cs) ≤ 1
    → any_keeps cs ≡ true
    → juggle_loop cs on_wire ≡ (cs, false)
unfolding juggle_loop
juggle_loop-kept [] on_wire one kept = ground arith
juggle_loop-kept (c ∷ cs) on_wire one kept = elim (Bool-cases (keeps c)) [
  | inl here ↦
      let nobody =
        count_rest on_wire c.has_token (holders cs) one (and_true c.has_token c.keep_token here) in
      rw (juggle_token-kept c on_wire here, juggle_loop-nobody cs nobody) refl
  | inr not_here ↦
      let others = or_right (keeps c) (any_keeps cs) kept not_here in
      let (off_wire, without, one_left) =
        count_two on_wire c.has_token (holders cs) one (any_keeps-count cs others) in
      rw (off_wire, juggle_token-without c without, juggle_loop-kept cs false one_left others) refl
]

-- The token stays with who keeps it, else it goes on one place.
abbrev pub next_holders : Bus → List Bool
next_holders bus = if held bus then to_gateway bus else from_gateway bus

-- What `advance_token` may change.
pub record Moves (bus bus' : Bus) : Type 0 where
  pub ring : to_gateway bus' ≡ next_holders bus
  pub tokens : count (from_gateway bus') ≡ count (from_gateway bus)
  pub others : map without_token bus'.clients ≡ map without_token bus.clients
  pub only : bus' ≡ record bus { clients = bus'.clients; gw_has_token = bus'.gw_has_token }

held_still : (bus : Bus) → held bus ≡ true → Moves bus bus
held_still bus kept = record { ring = rw kept refl; tokens = refl; others = refl; only = refl }

pub count_last : (bs : List Bool) (b : Bool) → count (bs ++ b ∷ []) ≡ count (b ∷ bs)
count_last [] b = refl
count_last (true ∷ bs) true = ap suc (count_last bs true)
count_last (true ∷ bs) false = ap suc (count_last bs false)
count_last (false ∷ bs) true = count_last bs true
count_last (false ∷ bs) false = count_last bs false

abbrev pub with_ring : Bus → List BusClient × Bool → Bus
with_ring bus (cs, b) = record bus { clients = cs; gw_has_token = b }

off_wire : (a : Bool) (bs : List Bool) → count (a ∷ bs) ≤ 1 → 1 ≤ count bs → a ≡ false
off_wire false bs one some_one = refl
off_wire true bs one some_one = absurd (omega arith)

juggled-Moves :
    (bus : Bus)
    → count (from_gateway bus) ≤ 1
    → (bus.gw_keep_token && bus.gw_has_token) ≡ false
    → Moves bus (with_ring bus (juggle_loop bus.clients bus.gw_has_token))
juggled-Moves bus one not_gw =
    let here : (b : Bool) → any_keeps bus.clients ≡ b → held bus ≡ b =
      λ b e. ap (λ gw. gw || any_keeps bus.clients) not_gw ∙ e in
    elim (Bool-cases (any_keeps bus.clients)) [
      | inl kept ↦
          let off =
            off_wire bus.gw_has_token (holders bus.clients) one
              (any_keeps-count bus.clients kept) in
          let still : with_ring bus (juggle_loop bus.clients bus.gw_has_token) ≡ bus =
            ap (with_ring bus) (juggle_loop-kept bus.clients bus.gw_has_token one kept)
            ∙ ap (λ b. record bus { gw_has_token = b }) (sym off) in
          rw still (held_still bus (here true kept))
      | inr free ↦
          let (ring, same) = juggle_loop-free bus.clients bus.gw_has_token free in
          let moved = juggle_loop bus.clients bus.gw_has_token in
          record {
            ring = rw (here false free) ring;
            tokens = sym (count_last (holders moved.0) moved.1) ∙ ap count ring;
            others = same;
            only = refl;
          }
    ]

-- There is one token at most. Then `advance_token` leaves the token with the one who has it, client
-- or gateway, if it keeps it; else the token goes on by one place in the ring, the gateway standing
-- before the first client and behind the last. So none is lost and none is made; nothing else
-- changes about the clients and the gateway.
pub advance_token_lem : (bus : Bus) → count (from_gateway bus) ≤ 1 → Moves bus (advance_token bus)
unfolding advance_token
advance_token_lem bus one = elim (Bool-cases (bus.gw_keep_token && bus.gw_has_token)) [
  | inl gw ↦ rw gw (held_still bus (ap (λ b. b || any_keeps bus.clients) gw))
  | inr not_gw ↦ rw not_gw (juggled-Moves bus one not_gw)
]
