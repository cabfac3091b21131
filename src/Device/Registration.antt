-- ===== src/Device/Registration.antt =====
-- sricd/device.c: registering for notes, and the end of all registrations of a client.
use sricd.Base.{
  same_or_not, ℕ, zero, suc, ◌+◌, ◌<◌, ◌≤◌, ◌≡◌, ◌≢◌, ◌∙◌, sym, refl, false, List, some, arith,
  ◌==◌, ==_refl, if◌then◌else◌, inl, inr,
}
use sricd.World.{World, Platform, Client, Target, ok, update}
use sricd.Client.{put_client}
use sricd.Client.Waiting.{get_client-live}
use sricd.Device.{drop_target, update_target, mark_client, device_set_client_notes, clear_loop}
use sricd.Device.Notes.{
  flags_of, listed, OnceEach, unlisted_flags, drop_target-OnceEach, drop_target-unlisted,
  drop_target-other, update_target-OnceEach, update_target-same, update_target-other,
}

-- The list of an address after a client has set its notes.
abbrev retargeted : ℕ → ℕ → List Target → List Target
retargeted c notes ts = if notes == 0 then drop_target c ts else update_target c notes ts

-- The list of one address is as it was but for what it says of the client `c`.
pub record Registers (c notes : ℕ) (ts ts' : List Target) : Type 0 where
  pub once : OnceEach ts'
  pub flags : flags_of c ts' ≡ notes
  pub gone : notes ≡ 0 → listed c ts' ≡ false
  pub others : (d : ℕ) → d ≢ c → flags_of d ts' ≡ flags_of d ts

dropped-Registers : (c : ℕ) (ts : List Target) → OnceEach ts → Registers c 0 ts (drop_target c ts)
dropped-Registers c ts h = record {
  once = drop_target-OnceEach c ts h;
  flags = unlisted_flags c (drop_target c ts) (drop_target-unlisted c ts h);
  gone = λ _. drop_target-unlisted c ts h;
  others = λ d ne. drop_target-other c d ts ne;
}

updated-Registers :
    (c notes : ℕ) (ts : List Target)
    → notes ≢ 0
    → OnceEach ts
    → Registers c notes ts (update_target c notes ts)
updated-Registers c notes ts some_notes h = record {
  once = update_target-OnceEach c notes ts h;
  flags = update_target-same c notes ts;
  gone = λ e. absurd (some_notes e);
  others = λ d ne. update_target-other c notes d ts ne;
}

retargeted-Registers :
    (c notes : ℕ) (ts : List Target) → OnceEach ts → Registers c notes ts (retargeted c notes ts)
retargeted-Registers c notes ts h = elim (same_or_not notes 0) [
  | inl none_left ↦ rw none_left (dropped-Registers c ts h)
  | inr some_left ↦
      let test : (notes == 0) ≡ false = ground arith in
      rw test (updated-Registers c notes ts some_left h)
]

-- Only the registrations and the clients differ.
pub record OnlyNotes (w w' : World) : Type 0 where
  pub calls : w'.calls ≡ w.calls
  pub tx_queue_0 : w'.tx_queue_0 ≡ w.tx_queue_0
  pub tx_queue_1 : w'.tx_queue_1 ≡ w.tx_queue_1
  pub iface : w'.iface ≡ w.iface
  pub enum : w'.enum ≡ w.enum
  pub device_types : w'.device_types ≡ w.device_types

at_address :
    (targets : ℕ → List Target) (address : ℕ) (ts : List Target)
    → update targets address ts address ≡ ts
at_address targets address ts = rw (==_refl address) refl

module _ ⦃env : Platform⦄ where
  -- Let a client be allocated, and every client stand once at most in the list of the address. A
  -- client that sets its notes there is registered under exactly those flags, or no longer listed
  -- if there are none; every client still stands there once at most, with the flags it had; the
  -- other addresses, the other clients, the queues and the port are left alone.
  pub device_set_client_notes_lem :
      (address c notes : ℕ) (x : Client) (w : World)
      → w.clients c ≡ some x
      → OnceEach (w.targets address)
      → (w' : World) × (device_set_client_notes address c notes w ≡ ok w')
        × Registers c notes (w.targets address) (w'.targets address)
        × ((a : ℕ) → a ≢ address → w'.targets a ≡ w.targets a)
        × (w'.clients c ≡ some (mark_client address notes x))
        × ((d : ℕ) → d ≢ c → w'.clients d ≡ w.clients d)
        × OnlyNotes w w'
  unfolding device_set_client_notes
  device_set_client_notes_lem address c notes x w live h = (
    record (put_client c (mark_client address notes x) w) {
      targets = update w.targets address (retargeted c notes (w.targets address));
    },
    rw (get_client-live c x w live) refl,
    rw (at_address w.targets address (retargeted c notes (w.targets address)))
        (retargeted-Registers c notes (w.targets address) h),
    λ a ne. ground arith,
    rw (==_refl c) refl,
    λ d ne. ground arith,
    ground arith,
  )

  -- A round of the loop of `device_clear_client_notes` has been done for each address from `i` up
  -- to `i + left`.
  pub clear_loop_lem :
      (left i c : ℕ) (x : Client) (w : World)
      → w.clients c ≡ some x
      → ((a : ℕ) → OnceEach (w.targets a))
      → (w' : World) × (clear_loop left i c w ≡ ok w')
        × ((a : ℕ) → i ≤ a → a < i + left → Registers c 0 (w.targets a) (w'.targets a))
        × ((a : ℕ) → (a < i) → w'.targets a ≡ w.targets a)
        × ((a : ℕ) → i + left ≤ a → w'.targets a ≡ w.targets a)
        × ((d : ℕ) → d ≢ c → w'.clients d ≡ w.clients d)
        × OnlyNotes w w'
  unfolding clear_loop
  clear_loop_lem zero i c x w live h = (
    w,
    refl,
    (λ a low high. absurd (omega arith)),
    (λ a low. refl),
    (λ a high. refl),
    (λ d ne. refl),
    ground arith,
  )
  clear_loop_lem (suc left) i c x w live h =
      let (v, step, registers, elsewhere, still, other_clients, only) =
        device_set_client_notes_lem i c 0 x w live (h i) in
      let (w', steps, cleared, below, above, others, rest) =
        clear_loop_lem left (i + 1) c (mark_client i 0 x) v still (λ a. elim (same_or_not a i) [
          | inl here ↦ rw here (registers.once)
          | inr there ↦ rw (elsewhere a there) (h a)
        ]) in
      (
        w',
        rw step steps,
        (λ a low high. elim (same_or_not a i) [
          | inl here ↦ rw (here, below i (omega arith)) registers
          | inr there ↦ rw (sym (elsewhere a there)) (cleared a (omega arith) (omega arith))
        ]),
        (λ a low. below a (omega arith) ∙ elsewhere a (λ e. omega arith)),
        (λ a high. above a (omega arith) ∙ elsewhere a (λ e. omega arith)),
        (λ d ne. others d ne ∙ other_clients d ne),
        ground arith,
      )
