-- ===== src/Ostric/Enumerated.antt =====
-- ostric: the clients of the bus while they take their addresses one by one.
use sricd.Base.{
  ℕ, zero, suc, ◌+◌, ◌<◌, ◌≡◌, ◌∙◌, sym, ap, refl, Bool, true, false, List, [], ◌∷◌, ◌++◌, arith,
  get_or, replicate, append_assoc,
}
use sricd.Base.Int.{ℤ}
use sricd.World.{bad_enum_tag, null}
use sricd.World.Socket.{Socket}
use sricd.SricEnum
use sricd.SricEnum.{syscmd_reset, syscmd_tok_advance, syscmd_addr_assign, gw_cmd_gen_token_code}
use sricd.SricIf.Transmit.{build_frame}
use sricd.Ostric.{BusClient, generic}
use sricd.Ostric.Generic.{msg_callback, token_callback, generic_token}
use sricd.Ostric.Commands.{despatch_loop}
use sricd.Ostric.Token.{juggle_token, juggle_loop}
use sricd.Ostric.Rotation.{count, holders, juggle_loop-nobody}
use sricd.Ostric.Addressing.{
  settled, fresh, holding, row, Says, despatch_loop-append, juggle_loop-append, despatch_loop-row,
  despatch_loop-fresh,
}

-- The first `n` clients have their addresses, one is next, and `m` wait.
abbrev pub line : ℕ → BusClient → ℕ → List BusClient
line n c m = row n 2 ++ c ∷ replicate m (fresh false)

holders-row : (n a : ℕ) → count (holders (row n a)) ≡ 0
holders-row zero a = refl
holders-row (suc n) a = holders-row n (a + 1)

pub holders-fresh : (m : ℕ) → count (holders (replicate m (fresh false))) ≡ 0
holders-fresh zero = refl
holders-fresh (suc m) = holders-fresh m

row_last : (n a : ℕ) → row n a ++ settled (a + n) false ∷ [] ≡ row (suc n) a
row_last zero a = let same : a + 0 ≡ a = omega arith in rw same refl
row_last (suc n) a =
    let same : a + suc n ≡ a + 1 + n = omega arith in
    rw same (ap (◌∷◌ (settled a false)) (row_last n (a + 1)))

-- A frame that only the next client reacts to.
pub line_told :
    (n m : ℕ) (c c' : BusClient) (buffer : List ℕ) (pty pty' : Socket)
    → ((j : ℕ)
        → j < 2 + n
        → (q : Socket) → msg_callback generic (settled j false) buffer q ≡ (settled j false, q))
    → ((q : Socket) → msg_callback generic (fresh false) buffer q ≡ (fresh false, q))
    → msg_callback c.client_type c buffer pty ≡ (c', pty')
    → despatch_loop (line n c m) buffer pty ≡ (line n c' m, pty')
unfolding despatch_loop
line_told n m c c' buffer pty pty' row_same fresh_same next =
    rw
      (
        despatch_loop-append (row n 2) (c ∷ replicate m (fresh false)) buffer pty,
        despatch_loop-row n 2 buffer pty row_same,
      )
      (ap
          (λ (told : BusClient × Socket).
            let rest = despatch_loop (replicate m (fresh false)) buffer told.1 in
            (row n 2 ++ told.0 ∷ rest.0, rest.1))
          next
        ∙ ap (λ (r : List BusClient × Socket). (row n 2 ++ c' ∷ r.0, r.1))
            (despatch_loop-fresh m buffer pty' fresh_same))

-- The next client keeps the token.
pub line_waits :
    (n m : ℕ) (address : ℤ)
    → juggle_loop (line n (holding address) m) false ≡ (line n (holding address) m, false)
unfolding juggle_loop juggle_token token_callback generic_token
line_waits n m address =
    rw
      (
        juggle_loop-append (row n 2) (holding address ∷ replicate m (fresh false)) false,
        juggle_loop-nobody (row n 2) (holders-row n 2),
      )
      (ap (λ (r : List BusClient × Bool). (row n 2 ++ holding address ∷ r.0, r.1))
        (juggle_loop-nobody (replicate m (fresh false)) (holders-fresh m)))

-- It passes the token on, to the gateway or to the one behind it.
pub line_ends :
    (n a : ℕ) → a ≡ 2 + n → juggle_loop (line n (settled a true) 0) false ≡ (row (suc n) 2, true)
unfolding juggle_loop juggle_token
line_ends n a e =
    rw
      (
        juggle_loop-append (row n 2) (settled a true ∷ []) false,
        juggle_loop-nobody (row n 2) (holders-row n 2),
        e,
      )
      (ap (λ cs. (cs, true)) (row_last n 2))

pub line_moves :
    (n a m : ℕ)
    → a ≡ 2 + n
    → juggle_loop (line n (settled a true) (suc m)) false ≡ (line (suc n) (fresh true) m, false)
unfolding juggle_loop juggle_token
line_moves n a m e =
    rw
      (
        juggle_loop-append (row n 2) (settled a true ∷ replicate (suc m) (fresh false)) false,
        juggle_loop-nobody (row n 2) (holders-row n 2),
        e,
      )
      (ap
          (λ (r : List BusClient × Bool).
            (row n 2 ++ settled (2 + n) false ∷ fresh true ∷ r.0, r.1))
          (juggle_loop-nobody (replicate m (fresh false)) (holders-fresh m))
        ∙ ap (λ cs. (cs, false))
            (sym (
                append_assoc (row n 2) (settled (2 + n) false ∷ [])
                  (fresh true ∷ replicate m (fresh false)))
              ∙ ap (λ cs. cs ++ fresh true ∷ replicate m (fresh false)) (row_last n 2)))

-- The frames of the daemon, in a buffer that may hold more.
abbrev pub reset_frame : List ℕ → List ℕ
reset_frame more = build_frame (SricEnum.bus_command 0 null (syscmd_reset ∷ [])) ++ more

abbrev pub assign_frame : List ℕ → ℕ → List ℕ
assign_frame more a =
    build_frame (SricEnum.bus_command 0 bad_enum_tag (syscmd_addr_assign ∷ a ∷ [])) ++ more

abbrev pub advance_frame : List ℕ → ℕ → List ℕ
advance_frame more a =
    build_frame (SricEnum.bus_command a bad_enum_tag (syscmd_tok_advance ∷ [])) ++ more

abbrev pub gen_token_frame : List ℕ → List ℕ
gen_token_frame more = build_frame (SricEnum.gateway_command (gw_cmd_gen_token_code ∷ [])) ++ more

pub assign_frame-Says : (more : List ℕ) (a : ℕ) → Says (assign_frame more a) 0 syscmd_addr_assign a
unfolding build_frame
assign_frame-Says more a = record {
  receiver_is = refl;
  sender_is = refl;
  command_is = refl;
  argument_is = refl;
}

pub advance_frame-Says :
    (more : List ℕ) (a : ℕ)
    → a < 128
    → Says (advance_frame more a) a syscmd_tok_advance (get_or (advance_frame more a) 5 0)
unfolding build_frame
advance_frame-Says more a low = record {
  receiver_is = omega arith;
  sender_is = refl;
  command_is = refl;
  argument_is = refl;
}
