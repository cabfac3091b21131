-- ===== src/Ostric/Addressing.antt =====
-- ostric: the clients of the simulated bus take their addresses.
use sricd.Base.{
  ℕ, zero, suc, ◌+◌, ◌%◌, ◌^◌, ==_refl, ◌<◌, ◌≡◌, ap, refl, Bool, true, false, List, [], ◌∷◌, ◌++◌,
  arith, get_or, ◌==◌, replicate,
}
use sricd.Base.Int.{ℤ, pos, negsuc}
use sricd.World.Socket.{Socket}
use sricd.SricEnum.{syscmd_tok_advance, syscmd_addr_assign}
use sricd.Ostric.{BusClient, generic, emit_ack}
use sricd.Ostric.Generic.{generic_msg, msg_callback, take_address, meant_for, answer_to}
use sricd.Ostric.Commands.{despatch_loop}
use sricd.Ostric.Token.{juggle_token, juggle_loop}

-- A client of the address given, with and without the token, and one that was reset.
abbrev pub settled : ℕ → Bool → BusClient
settled a has = record {
  client_type = generic;
  address = pos a;
  has_token = has;
  keep_token = false;
}

abbrev pub fresh : Bool → BusClient
fresh has = record { client_type = generic; address = negsuc 0; has_token = has; keep_token = true }

-- A client that keeps the token.
abbrev pub holding : ℤ → BusClient
holding address = record {
  client_type = generic;
  address = address;
  has_token = true;
  keep_token = true;
}

-- So many clients with the addresses from `a` on.
abbrev pub row : ℕ → ℕ → List BusClient
row zero a = []
row (suc n) a = settled a false ∷ row n (a + 1)

-- A frame of the master: its receiver, its command, and the byte behind.
pub record Says (buffer : List ℕ) (receiver command argument : ℕ) : Type 0 where
  pub receiver_is : meant_for buffer ≡ receiver
  pub sender_is : answer_to buffer ≡ 1
  pub command_is : get_or buffer 4 0 ≡ command
  pub argument_is : get_or buffer 5 0 ≡ argument

pub despatch_loop-append :
    (cs ds : List BusClient) (buffer : List ℕ) (pty : Socket)
    → despatch_loop (cs ++ ds) buffer pty ≡ (
      (despatch_loop cs buffer pty).0
          ++ (despatch_loop ds buffer (despatch_loop cs buffer pty).1).0,
      (despatch_loop ds buffer (despatch_loop cs buffer pty).1).1,
    )
unfolding despatch_loop
despatch_loop-append [] ds buffer pty = refl
despatch_loop-append (c ∷ cs) ds buffer pty =
    let told = msg_callback c.client_type c buffer pty in
    ap (λ (r : List BusClient × Socket). (told.0 ∷ r.0, r.1))
      (despatch_loop-append cs ds buffer told.1)

pub juggle_loop-append :
    (cs ds : List BusClient) (on_wire : Bool)
    → juggle_loop (cs ++ ds) on_wire ≡ (
      (juggle_loop cs on_wire).0 ++ (juggle_loop ds (juggle_loop cs on_wire).1).0,
      (juggle_loop ds (juggle_loop cs on_wire).1).1,
    )
unfolding juggle_loop
juggle_loop-append [] ds on_wire = refl
juggle_loop-append (c ∷ cs) ds on_wire =
    let here = juggle_token c on_wire in
    ap (λ (r : List BusClient × Bool). (here.0 ∷ r.0, r.1)) (juggle_loop-append cs ds here.1)

-- A frame that none of the clients reacts to.
pub despatch_loop-row :
    (n a : ℕ) (buffer : List ℕ) (pty : Socket)
    → ((j : ℕ)
        → j < a + n
        → (q : Socket) → msg_callback generic (settled j false) buffer q ≡ (settled j false, q))
    → despatch_loop (row n a) buffer pty ≡ (row n a, pty)
unfolding despatch_loop
despatch_loop-row zero a buffer pty same = refl
despatch_loop-row (suc n) a buffer pty same =
    rw
      (
        same a (omega arith) pty,
        despatch_loop-row n (a + 1) buffer pty (λ j less q. same j (omega arith) q),
      )
      refl

pub despatch_loop-fresh :
    (m : ℕ) (buffer : List ℕ) (pty : Socket)
    → ((q : Socket) → msg_callback generic (fresh false) buffer q ≡ (fresh false, q))
    → despatch_loop (replicate m (fresh false)) buffer pty ≡ (replicate m (fresh false), pty)
unfolding despatch_loop
despatch_loop-fresh zero buffer pty same = refl
despatch_loop-fresh (suc m) buffer pty same =
    rw (same pty, despatch_loop-fresh m buffer pty same) refl

-- ADDR_ASSIGN leaves a client alone that has an address, and one that has no token.
pub assign-settled :
    (a b : ℕ) (buffer : List ℕ) (pty : Socket)
    → Says buffer 0 syscmd_addr_assign a
    → msg_callback generic (settled b false) buffer pty ≡ (settled b false, pty)
unfolding msg_callback generic_msg take_address
assign-settled a b buffer pty says = rw (says.receiver_is, says.command_is) (ground arith)

pub assign-fresh :
    (a : ℕ) (buffer : List ℕ) (pty : Socket)
    → Says buffer 0 syscmd_addr_assign a
    → msg_callback generic (fresh false) buffer pty ≡ (fresh false, pty)
unfolding msg_callback generic_msg take_address
assign-fresh a buffer pty says = rw (says.receiver_is, says.command_is) refl

pub assign-holder :
    (a : ℕ) (buffer : List ℕ) (pty : Socket)
    → a < 128
    → Says buffer 0 syscmd_addr_assign a
    → msg_callback generic (fresh true) buffer pty ≡ (holding (pos a), emit_ack a 1 pty)
unfolding msg_callback generic_msg take_address
assign-holder a buffer pty low says =
    let same : a % 0x80 ≡ a = omega arith in
    rw (says.receiver_is, says.command_is, says.argument_is, says.sender_is, same) refl

-- TOK_ADVANCE for the address `a`.
pub advance-settled :
    (a b x : ℕ) (buffer : List ℕ) (pty : Socket)
    → b < a
    → Says buffer a syscmd_tok_advance x
    → msg_callback generic (settled b false) buffer pty ≡ (settled b false, pty)
unfolding msg_callback generic_msg
advance-settled a b x buffer pty less says =
    let other : (a == b) ≡ false = ground arith in
    let single : (a == 0) ≡ false = ground arith in
    rw (says.receiver_is, says.command_is, other, single) refl

pub advance-fresh :
    (a x : ℕ) (buffer : List ℕ) (pty : Socket)
    → 0 < a
    → Says buffer a syscmd_tok_advance x
    → msg_callback generic (fresh false) buffer pty ≡ (fresh false, pty)
unfolding msg_callback generic_msg
advance-fresh a x buffer pty some_one says =
    let single : (a == 0) ≡ false = ground arith in
    rw (says.receiver_is, says.command_is, single) refl

pub advance-seated :
    (a x : ℕ) (buffer : List ℕ) (pty : Socket)
    → a < 128
    → Says buffer a syscmd_tok_advance x
    → msg_callback generic (holding (pos a)) buffer pty ≡ (settled a true, emit_ack a 1 pty)
unfolding msg_callback generic_msg
advance-seated a x buffer pty low says =
    let same : a % 2 ^ 32 % 256 ≡ a = omega arith in
    rw (says.receiver_is, says.command_is, says.sender_is, ==_refl a, same) refl
