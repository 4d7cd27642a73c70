-- ===== src/Clients/Requests.antt =====
-- The requests that the bridge (dstx/src/dbus-handlers.c), the command line (dstx/src/commands.c) and
-- the terminal interface (dstx/src/ui.c) make of the settings thread.
pub mod Typed
use dstx.Common.{
  ℕ, ◌≤◌, ◌≡◌, ◌⊎◌, inl, inr, refl, Bool, true, false, Option, none, some, List, [], ◌∷◌, ◌++◌,
  ◌==◌, ltb, not, ◌&&◌, ◌||◌, length, get_or, All, All-append, if_cases, arith,
}
use dstx.Common.Int.{ℤ, pos, negsuc}
use dstx.Text.{Word, Libc, codes, same_text, atoi}
use dstx.Commands.{within}
use dstx.Commands.Cli.{
  Posted, profile_request, named_request, cmd_profile, delay_request, cmd_auto_save, run_global,
  is_help, without_wait, slot_number, on_slot, dispatch, process_cli_command, Exit,
}
use dstx.Bus.{BusSlot, empty_slot}
use dstx.Bus.ProfileCalls.{
  ProfileMethod, list_profiles, load_profile, save_profile, delete_profile, set_auto_save,
  clamp_delay, request_of, handle_profile,
}

-- Nothing, or 100 ms to 10 s.
abbrev pub IsDelay : ℤ → Type 0
IsDelay (pos n) = (100 ≤ n) × (n ≤ 10000)
IsDelay (negsuc n) = n ≡ 0

-- A name, for the requests that read one.
abbrev pub HasName : Option Word → Type 0
HasName none = ⊥
HasName (some name) = Unit

-- One of the five requests, with what it needs.
abbrev pub IsServable : Posted → Type 0
IsServable p =
    (((p.request ≡ pos 1) ⊎ ((p.request ≡ pos 2) ⊎ (p.request ≡ pos 3))) × HasName p.name)
    ⊎ ((p.request ≡ pos 4) ⊎ ((p.request ≡ pos 5) × IsDelay p.auto_delay))

-- A request with a name.
unfoldable pub IsNamed : Option ℤ → Type 0
IsNamed none = Unit
IsNamed (some req) = (req ≡ pos 1) ⊎ ((req ≡ pos 2) ⊎ (req ≡ pos 3))

pub profile_request-IsNamed : (sub : Word) → IsNamed (profile_request sub)
unfolding profile_request IsNamed
profile_request-IsNamed sub =
    if_cases IsNamed (same_text sub (codes "load")) (λ e. inl refl)
      (λ e.
        if_cases IsNamed (same_text sub (codes "save")) (λ e. inr (inl refl))
          (λ e. if_cases IsNamed (same_text sub (codes "delete")) (λ e. inr (inr refl)) (λ e. tt)))

pub within-IsDelay : (d : ℤ) → within 10000 d && not (within 99 d) ≡ true → IsDelay d
unfolding within
within-IsDelay (pos n) h = ground arith
within-IsDelay (negsuc n) h = ground arith

clamp_delay-IsDelay : (d : ℤ) → IsDelay (clamp_delay d)
unfolding clamp_delay
clamp_delay-IsDelay (pos n) = ground arith
clamp_delay-IsDelay (negsuc n) = ground arith

pub request_of-IsServable : (m : ProfileMethod) → IsServable (request_of m)
unfolding request_of
request_of-IsServable list_profiles = inr (inl refl)
request_of-IsServable (load_profile name) = inl (inl refl, tt)
request_of-IsServable (save_profile name) = inl (inr (inl refl), tt)
request_of-IsServable (delete_profile name) = inl (inr (inr refl), tt)
request_of-IsServable (set_auto_save enable delay_ms) =
    inr (inr (refl, clamp_delay-IsDelay delay_ms))

AreServable : List Posted × ℕ → Type 0
AreServable r = All IsServable r.0

named_request-AreServable :
    (req : Option ℤ) (args : List Word) (ok : Bool)
    → IsNamed req
    → AreServable (named_request req args ok)
unfolding named_request IsNamed AreServable
named_request-AreServable none args ok h = tt
named_request-AreServable (some req) [] ok h = tt
named_request-AreServable (some req) (name ∷ args) ok h = (inl (h, tt), tt)

cmd_profile-AreServable : (args : List Word) (ok : Bool) → AreServable (cmd_profile args ok)
unfolding cmd_profile AreServable
cmd_profile-AreServable [] ok = tt
cmd_profile-AreServable (sub ∷ args) ok =
    if_cases AreServable (same_text sub (codes "list")) (λ e. (inr (inl refl), tt))
      (λ e. named_request-AreServable (profile_request sub) args ok (profile_request-IsNamed sub))

delay_request-AreServable :
    (libc : Libc) (args : List Word) (ok : Bool) → AreServable (delay_request libc args ok)
unfolding delay_request AreServable
delay_request-AreServable libc [] ok = tt
delay_request-AreServable libc (a ∷ args) ok =
    let delay = atoi libc a in
    if_cases AreServable (within 10000 delay && not (within 99 delay))
      (λ e. (inr (inr (refl, within-IsDelay delay e)), tt)) (λ e. tt)

cmd_auto_save-AreServable :
    (libc : Libc) (args : List Word) (ok : Bool) → AreServable (cmd_auto_save libc args ok)
unfolding cmd_auto_save AreServable
cmd_auto_save-AreServable libc [] ok = tt
cmd_auto_save-AreServable libc (sub ∷ args) ok =
    if_cases AreServable (same_text sub (codes "on")) (λ e. (inr (inr (refl, refl)), tt))
      (λ e.
        if_cases AreServable (same_text sub (codes "off")) (λ e. (inr (inr (refl, refl)), tt))
          (λ e.
            if_cases AreServable (same_text sub (codes "delay"))
              (λ e. delay_request-AreServable libc args ok) (λ e. tt)))

run_global-AreServable :
    (libc : Libc) (first : Word) (args : List Word) (ok : Bool)
    → AreServable (run_global libc first args ok)
unfolding run_global AreServable
run_global-AreServable libc first args ok =
    if_cases AreServable (same_text first (codes "slots")) (λ e. tt)
      (λ e.
        if_cases AreServable (same_text first (codes "profile"))
          (λ e. cmd_profile-AreServable args ok)
          (λ e.
            if_cases AreServable (same_text first (codes "auto-save"))
              (λ e. cmd_auto_save-AreServable libc args ok) (λ e. tt)))

dispatch-AreServable :
    (libc : Libc) (number : Option ℕ) (first : Word) (args : List Word) (ok : Bool)
    → (slots : List BusSlot) → All IsServable (dispatch libc number first args ok slots).posted
unfolding dispatch on_slot AreServable
dispatch-AreServable libc none first args ok slots = run_global-AreServable libc first args ok
dispatch-AreServable libc (some i) first args ok slots =
    let s = get_or slots i empty_slot in
    if_cases (λ (x : Exit). All IsServable x.posted) s.slot.connected (λ e. tt) (λ e. tt)

pub process_cli_command-AreServable :
    (libc : Libc) (ready ok : Bool) (first : Word) (words : List Word) (slots : List BusSlot)
    → All IsServable (process_cli_command libc ready ok first words slots).posted
unfolding process_cli_command
process_cli_command-AreServable libc ready ok first words slots =
    let P : Exit → Type 0 = λ x. All IsServable x.posted in
    if_cases P (not ready) (λ e. tt)
      (λ e.
        if_cases P (is_help first) (λ e. tt)
          (λ e. dispatch-AreServable libc (slot_number first) first (without_wait words) ok slots))
