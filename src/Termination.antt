-- ===== src/Termination.antt =====
-- terminationwipe.go: the handler that InstallTerminationWipe runs, as the effects it has on what comes
-- in. A case of its select is one input, so that a signal is one that the channel delivered: what lands
-- between a Stop and the Notify behind it meets the default action and is not among the inputs. They come
-- in the order the select takes them; the outcomes of the bounded wipe and of the re-raise come with the
-- signal. terminationignore_signal.go: the record of the signals that were ignored at the installation.
-- A signal is its number.
pub mod Handler
use secmem.Prelude.{ℕ, Bool, true, false, not, ◌||◌, if◌then◌else◌, ◌==◌, List, [], ◌∷◌, ◌++◌}

pub data Input : Type 0 where
  arrival : (sig : ℕ) (in_time reraise_fails : Bool) → Input
  uninstalled : Input

pub data Effect : Type 0 where
  wiped : (in_time : Bool) → Effect
  warned : Effect
  stopped : Effect
  reraised : (sig : ℕ) (failed : Bool) → Effect
  exited : (status : ℕ) → Effect
  notified : Effect

abbrev pub interrupt : ℕ
interrupt = 2

abbrev pub term_signal : ℕ
term_signal = 15

-- recordInheritedIgnores, and inheritedIgnores.ignored, which is false for a signal it has no entry for.
unfoldable pub record_inherited_ignores : (is_ignored : ℕ → Bool) → List ℕ → List (ℕ × Bool)
record_inherited_ignores is_ignored [] = []
record_inherited_ignores is_ignored (s ∷ signals) =
    (s, is_ignored s) ∷ record_inherited_ignores is_ignored signals

unfoldable pub ignored : List (ℕ × Bool) → ℕ → Bool
ignored [] sig = false
ignored ((s, was) ∷ entries) sig = let rest = ignored entries sig in if s == sig then was else rest

-- completeTermination: whether the handler stays, and the effects. The exit status is the platform's.
unfoldable pub complete_termination :
    (status sig : ℕ) → (force_exit inherited_ignore reraise_fails : Bool) → Bool × List Effect
complete_termination status sig force_exit inherited_ignore reraise_fails =
    let tried = if inherited_ignore then [] else reraised sig reraise_fails ∷ [] in
    if not (inherited_ignore || reraise_fails)
    then (false, tried)
    else if not force_exit
    then (true, tried ++ (warned ∷ []))
    else (false, tried ++ (warned ∷ exited status ∷ []))

-- The first case of the select, up to the next turn of the loop, whose effects are `more`.
unfoldable pub on_signal :
    (status sig : ℕ)
    → (force_exit inherited_ignore in_time reraise_fails : Bool) → (more : List Effect)
    → List Effect
on_signal status sig force_exit inherited_ignore in_time reraise_fails more =
    let (rearm, effects) =
      complete_termination status sig force_exit inherited_ignore reraise_fails in
    (wiped in_time ∷ (if in_time then [] else warned ∷ []))
    ++ (stopped ∷ (effects ++ (if not rearm then [] else notified ∷ more)))

-- The goroutine.
unfoldable pub serve :
    (status : ℕ) → (force_exit : Bool) → (entries : List (ℕ × Bool)) → List Input → List Effect
serve status force_exit entries [] = []
serve status force_exit entries (uninstalled ∷ inputs) = stopped ∷ []
serve status force_exit entries (arrival sig in_time reraise_fails ∷ inputs) =
    let more = serve status force_exit entries inputs in
    on_signal status sig force_exit (ignored entries sig) in_time reraise_fails more

unfoldable pub default_signals : List ℕ → List ℕ
default_signals [] = interrupt ∷ term_signal ∷ []
default_signals (s ∷ signals) = s ∷ signals

-- installTerminationWipeHooks: the record before Notify, then the goroutine.
unfoldable pub install_termination_wipe :
    (status : ℕ)
    → (force_exit : Bool) → (is_ignored : ℕ → Bool) → (signals : List ℕ) → List Input
    → List Effect
install_termination_wipe status force_exit is_ignored signals inputs =
    let entries = record_inherited_ignores is_ignored (default_signals signals) in
    notified ∷ serve status force_exit entries inputs
