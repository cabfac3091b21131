-- ===== src/Ostric/Request.antt =====
-- ostric/token.c and ostric/cmds.c: the gateway asks for the token.
use sricd.Base.{
  ℕ, zero, suc, ◌≤◌, ◌<◌, ◌≡◌, ◌⊎◌, inl, inr, ◌∙◌, ap, refl, Bool, true, false, ◌&&◌, ◌||◌, List,
  [], ◌∷◌, ◌++◌, map, arith, if◌then◌else◌, length, drop, get_or, ltb-false, length-append,
  Bool-cases,
}
use sricd.Ostric.{BusClient, Bus}
use sricd.Ostric.Commands.{gateway_command, acknowledged}
use sricd.Ostric.Token.{advance_token}
use sricd.Ostric.Rotation.{
  holders, from_gateway, to_gateway, count, keeps, any_keeps, held, without_token, or_false,
  next_holders, Moves, advance_token_lem, count_last,
}

-- So many rounds in which no frame arrives.
unfoldable pub turns : ℕ → Bus → Bus
unfolding advance_token
turns zero bus = bus
turns (suc n) bus = turns n (advance_token bus)

-- Whether a client keeps the token when it gets it.
abbrev pub any_wants : List BusClient → Bool
any_wants [] = false
any_wants (c ∷ cs) = c.keep_token || any_wants cs

-- The last place of a list that has a `true` is that one, or it is not the last.
last_place :
    (bs : List Bool) (b : Bool) (xs ys : List Bool)
    → bs ++ b ∷ [] ≡ xs ++ true ∷ ys
    → (b ≡ true) ⊎ ((zs : List Bool) × (bs ≡ xs ++ true ∷ zs) × (length ys ≡ suc (length zs)))
last_place [] b [] ys e = inl (cc e)
last_place (h ∷ hs) b [] ys e =
    inr (hs, cc e, omega (arith, ap length e, length-append hs (b ∷ [])))
last_place [] b (x ∷ []) ys e = absurd (cc e)
last_place [] b (x ∷ x' ∷ xs) ys e = absurd (cc e)
last_place (h ∷ hs) b (x ∷ xs) ys e = elim (last_place hs b xs ys (ap (drop 1) e)) [
  | inl here ↦ inl here
  | inr (zs, before, size) ↦ let same : h ≡ x = cc e in inr (zs, rw (same, before) refl, size)
]

any_wants-same :
    (cs ds : List BusClient)
    → map without_token cs ≡ map without_token ds
    → any_wants cs ≡ any_wants ds
any_wants-same [] [] e = refl
any_wants-same [] (d ∷ ds) e = absurd (cc e)
any_wants-same (c ∷ cs) [] e = absurd (cc e)
any_wants-same (c ∷ cs) (d ∷ ds) e =
    let same : without_token c ≡ without_token d = cc e in
    let wants : c.keep_token ≡ d.keep_token = ap (λ x. x.keep_token) same in
    rw (wants, any_wants-same cs ds (ap (drop 1) e)) refl

pub and_false : (b : Bool) → (b && false) ≡ false
and_false true = refl
and_false false = refl

any_keeps-wants : (cs : List BusClient) → any_wants cs ≡ false → any_keeps cs ≡ false
any_keeps-wants [] free = refl
any_keeps-wants (c ∷ cs) free =
    let (here, others) = or_false c.keep_token (any_wants cs) free in
    let not_here : keeps c ≡ false = ap (λ k. c.has_token && k) here ∙ and_false c.has_token in
    rw (not_here, any_keeps-wants cs others) refl

advance_token-kept :
    (bus : Bus) → bus.gw_keep_token ≡ true → bus.gw_has_token ≡ true → advance_token bus ≡ bus
unfolding advance_token
advance_token-kept bus keep has =
    let both : (bus.gw_keep_token && bus.gw_has_token) ≡ true = ground arith in rw both refl

-- The gateway keeps the token once it has it.
turns-stays :
    (n : ℕ) (bus : Bus) → bus.gw_keep_token ≡ true → bus.gw_has_token ≡ true → turns n bus ≡ bus
unfolding turns
turns-stays zero bus keep has = refl
turns-stays (suc n) bus keep has = rw (advance_token-kept bus keep has) (turns-stays n bus keep has)

not_held : (bus : Bus) → bus.gw_has_token ≡ false → any_wants bus.clients ≡ false → held bus ≡ false
not_held bus without free =
    ap (λ b. (bus.gw_keep_token && b) || any_keeps bus.clients) without
    ∙ ap (λ b. b || any_keeps bus.clients) (and_false bus.gw_keep_token)
    ∙ any_keeps-wants bus.clients free

keep_token-same : (bus bus' : Bus) → Moves bus bus' → bus'.gw_keep_token ≡ bus.gw_keep_token
keep_token-same bus bus' m = ap (λ b. b.gw_keep_token) m.only

-- The token is among the last `n + 1` places of the ring.
turns-reach :
    (n : ℕ) (bus : Bus) (xs ys : List Bool)
    → bus.gw_keep_token ≡ true
    → any_wants bus.clients ≡ false
    → count (from_gateway bus) ≡ 1
    → to_gateway bus ≡ xs ++ true ∷ ys
    → length ys ≤ n
    → ((turns n bus).gw_has_token ≡ true) × ((turns n bus).gw_keep_token ≡ true)
unfolding turns
turns-reach zero bus xs ys keep free one place near =
    elim (last_place (holders bus.clients) bus.gw_has_token xs ys place) [
      | inl has ↦ (has, keep)
      | inr (zs, before, size) ↦ absurd (omega arith)
    ]
turns-reach (suc n) bus xs ys keep free one place near = elim (Bool-cases bus.gw_has_token) [
  | inl has ↦ rw (turns-stays (suc n) bus keep has) (has, keep)
  | inr without ↦ elim (last_place (holders bus.clients) bus.gw_has_token xs ys place) [
    | inl has ↦ absurd (cc (has, without))
    | inr (zs, before, size) ↦
        let moves = advance_token_lem bus (omega (arith, one)) in
        let went : next_holders bus ≡ from_gateway bus =
          ap (λ b. if b then to_gateway bus else from_gateway bus) (not_held bus without free) in
        turns-reach n (advance_token bus) (bus.gw_has_token ∷ xs) zs
          (keep_token-same bus (advance_token bus) moves ∙ keep)
          (any_wants-same (advance_token bus).clients bus.clients moves.others ∙ free)
          (moves.tokens ∙ one) (moves.ring ∙ went ∙ ap (◌∷◌ bus.gw_has_token) before) (omega arith)
  ]
]

-- A list with a `true` has a first one.
first_true :
    (bs : List Bool)
    → 1 ≤ count bs
    → (xs ys : List Bool) × (bs ≡ xs ++ true ∷ ys) × (length ys < length bs)
first_true [] some_one = absurd (omega arith)
first_true (true ∷ bs) some_one = ([], bs, refl, omega arith)
first_true (false ∷ bs) some_one =
    let (xs, ys, e, less) = first_true bs some_one in
    (false ∷ xs, ys, ap (◌∷◌ false) e, omega arith)

length-holders : (cs : List BusClient) → length (holders cs) ≡ length cs
length-holders [] = refl
length-holders (c ∷ cs) = ap suc (length-holders cs)

-- The gateway is sent REQ_TOKEN while there is one token, wherever it is, and no client keeps it.
-- After as many turns of the token as there are clients the gateway has it, and it keeps it: a
-- further turn changes nothing.
pub gateway_command-turns :
    (buffer : List ℕ) (len : ℕ) (bus : Bus)
    → 5 ≤ len
    → get_or buffer 4 0 ≡ 1
    → any_wants bus.clients ≡ false
    → count (from_gateway bus) ≡ 1
    → let bus' = turns (length bus.clients) (gateway_command buffer len bus) in
      (bus'.gw_has_token ≡ true) × (advance_token bus' ≡ bus')
unfolding gateway_command
gateway_command-turns buffer len bus enough request free one =
    let asked = acknowledged buffer (record bus { gw_keep_token = true }) in
    let now : gateway_command buffer len bus ≡ asked = rw (request, ltb-false len 5 enough) refl in
    let (xs, ys, place, near) =
      first_true (to_gateway bus)
        (omega (arith, count_last (holders bus.clients) bus.gw_has_token, one)) in
    let (has, keep) = turns-reach (length bus.clients) asked xs ys refl free one place (
      omega (
        arith,
        near,
        length-append (holders bus.clients) (bus.gw_has_token ∷ []),
        length-holders bus.clients,
      )) in
    rw now (has, advance_token-kept (turns (length bus.clients) asked) keep has)
