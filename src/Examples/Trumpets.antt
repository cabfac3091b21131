-- ===== src/Examples/Trumpets.antt =====
-- The theorem on trumpets at a concrete run.
use sricd.Base.{ℕ, ◌+◌, ◌-◌, ◌^◌, ◌<◌, ◌≤◌, ◌≡◌, refl, true, List, [], ◌∷◌, some, arith}
use sricd.Base.Int.{ℤ, pos}
use sricd.World.{ok}
use sricd.Trumpets.{put, tty, pty, Trumpets, Channel, arrived, passed_on, rx_data, tx_data}
use sricd.Trumpets.Steps.{Watches, after_rx, Passes, receive, send}
use sricd.Trumpets.Passing.{unwatched, Run, stop, go}
use sricd.Trumpets.StartUp.{HostCalls, Pumping, opened, main}
use sricd.Trumpets.Pumping.{main-Passes}
use sricd.Examples.StartUp.{some_calls, shell_line, set_line}

-- Two bytes come in on the serial port, the second with a flipped bit, and one goes out.
abbrev two_in : Trumpets
unfolding sricd.Trumpets.insert_errors
two_in = arrived (λ n. n + 1) 3 tty (0x7E ∷ 3 ∷ []) 9 opened

abbrev one_out : Trumpets
one_out = passed_on pty 1 two_in

abbrev pty_watched : Watches
pty_watched = after_rx tty opened unwatched

both_steps : Run (λ n. n + 1) 3 opened unwatched one_out (put pty_watched pty true)
unfolding rx_data tx_data sricd.Trumpets.insert_errors
both_steps =
    go opened two_in one_out unwatched pty_watched (put pty_watched pty true)
      (go opened opened two_in unwatched unwatched pty_watched (stop opened unwatched)
        (receive tty (0x7E ∷ 3 ∷ []) 9 opened two_in unwatched (omega arith) (omega arith) refl))
      (send pty 1 true two_in one_out pty_watched refl (omega arith) refl)

abbrev first_digit : List ℕ → ℤ
first_digit [] = pos 0
first_digit (b ∷ bytes) = pos (b - 48)

-- A system on which a number is read from its first byte, and every call succeeds.
abbrev some_host : HostCalls some_calls
some_host = record {
  strtol = first_digit;
  open_tty = λ path. some (3, shell_line);
  getpt = some 4;
  unlockpt = true;
}

main-Passes_example :
    (p : Pumping some_calls) × (main some_host ([] ∷ (116 ∷ []) ∷ (51 ∷ []) ∷ []) ≡ ok p)
    × (p.rand_modulus ≡ 3)
    × (p.line ≡ set_line)
    × (p.state ≡ opened)
    × (0 < p.rand_modulus)
    × (p.rand_modulus ≤ 2 ^ 31)
    × Passes one_out (put pty_watched pty true) tty
unfolding sricd.SricIf.Serial.set_flags sricd.Trumpets.Serial.set_flags
main-Passes_example =
    main-Passes some_calls some_host [] (116 ∷ []) (51 ∷ []) 3 4 shell_line set_line shell_line
      set_line (λ n. n + 1) one_out (put pty_watched pty true) tty (omega arith)
      (record {
        found = refl;
        positive = omega arith;
        tty = refl;
        read = refl;
        speed_set = refl;
        written = refl;
        terminal = refl;
        unlocked = refl;
      })
      both_steps
