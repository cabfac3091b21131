-- ===== src/Trumpets.antt =====
-- trumpets/trumpets.c: bytes pass between a serial port and a terminal, with bits flipped at
-- random.
pub mod Serial
pub mod StartUp
pub mod Steps
pub mod Passing
pub mod Pumping
use sricd.Base.{
  ℕ, zero, suc, ◌+◌, ◌%◌, ◌^◌, Bool, true, false, not, ◌&&◌, List, [], ◌∷◌, ◌++◌, bit_xor, ◌==◌,
  if◌then◌else◌, length, take, drop,
}
use sricd.World.{Outcome, ok, exited}

-- `tty_channel` and `pty_channel`, and `target_channel` of each.
pub data ChannelName : Type 0 where
  tty pty : ChannelName

abbrev pub target : ChannelName → ChannelName
target tty = pty
target pty = tty

-- `struct trumpet_channel`: `rxpos` is the length of `buffer`.
pub record Channel : Type 0 where
  pub buffer : List ℕ
  pub tx_watch_id : ℕ

-- Both channels, and what the model counts: the calls of `rand`, and the bytes read and written.
pub record Trumpets : Type 0 where
  pub channels : ChannelName → Channel
  pub draws : ℕ
  pub taken : ChannelName → List ℕ
  pub given : ChannelName → List ℕ

abbrev pub same_channel : ChannelName → ChannelName → Bool
same_channel tty tty = true
same_channel pty pty = true
same_channel _ _ = false

abbrev pub put {ℓ} : {A : Type ℓ} → (ChannelName → A) → ChannelName → A → ChannelName → A
put f c a d = if same_channel d c then a else f d

-- What `read` returns: bytes, or -1 with `EAGAIN` or another error.
pub data ReadResult : Type 0 where
  got : List ℕ → ReadResult
  again failed : ReadResult

abbrev pub buffer_size : ℕ
buffer_size = 256

-- `rand n` is what the call with the number `n` returns; `rand_modulus` is given without its sign.
module _ (rand : ℕ → ℕ) (rand_modulus : ℕ) where
  -- The loop over the bytes read, and the number of calls of `rand` after it.
  unfoldable pub insert_errors : List ℕ → ℕ → List ℕ × ℕ
  insert_errors [] draws = ([], draws)
  insert_errors (b ∷ bytes) draws =
      let hit = insert_errors bytes (draws + 2) in
      let missed = insert_errors bytes (draws + 1) in
      if rand draws % rand_modulus == 0
      then (bit_xor b (2 ^ (rand (draws + 1) % 8)) ∷ hit.0, hit.1)
      else (b ∷ missed.0, missed.1)

  -- The watch of the other channel, unless it is there already; `id` is the one that GLib gives.
  abbrev pub watched : ℕ → Channel → Channel
  watched id t = record t { tx_watch_id = if t.tx_watch_id == 0 then id else t.tx_watch_id }

  abbrev pub arrived : ChannelName → List ℕ → ℕ → Trumpets → Trumpets
  arrived c bytes id s =
      let inserted = insert_errors bytes s.draws in
      let source = s.channels c in
      record s {
        channels =
            put (put s.channels c (record source { buffer = source.buffer ++ inserted.0 }))
              (target c) (watched id (s.channels (target c)));
        draws = inserted.1;
        taken = put s.taken c (s.taken c ++ bytes);
      }

  unfoldable pub rx_data : ChannelName → ReadResult → ℕ → Trumpets → Outcome Trumpets
  unfolding insert_errors
  rx_data c again id s = ok s
  rx_data c failed id s = exited
  rx_data c (got bytes) id s =
      if (length bytes == 0) && not (length (s.channels c).buffer == buffer_size)
      then exited
      else ok (arrived c bytes id s)

-- What `write` to the channel returns: how many bytes it wrote, or -1.
pub data WriteResult : Type 0 where
  wrote : ℕ → WriteResult
  write_failed : WriteResult

abbrev pub passed_on : ChannelName → ℕ → Trumpets → Trumpets
passed_on c n s =
    let source = s.channels (target c) in
    let left = drop n source.buffer in
    record s {
      channels =
          put (put s.channels (target c) (record source { buffer = left })) c
            (record (s.channels c) {
              tx_watch_id = if length left == 0 then 0 else (s.channels c).tx_watch_id;
            });
      given = put s.given c (s.given c ++ take n source.buffer);
    }

-- The flag is the value returned: whether the watch stays.
unfoldable pub tx_data : ChannelName → WriteResult → Trumpets → Outcome (Trumpets × Bool)
tx_data c write_failed s = exited
tx_data c (wrote n) s =
    ok (passed_on c n s, not (length (drop n (s.channels (target c)).buffer) == 0))
