-- ===== src/Termination/Handler.antt =====
-- terminationwipe.go: what may come before a re-raise or an exit, and what the installer without an exit
-- does for every signal.
use secmem.Prelude.{
  ℕ, suc, Bool, true, false, not, ◌||◌, if◌then◌else◌, List, [], ◌∷◌, ◌++◌, ◌≡◌, refl, ap, ◌∙◌,
}
use secmem.Termination.{
  Input, arrival, uninstalled, Effect, wiped, warned, stopped, reraised, exited, notified, ignored,
  record_inherited_ignores, default_signals, complete_termination, on_signal, serve,
  install_termination_wipe,
}

-- A re-raise and an exit stand behind a wipe and a deregistration, both since the last registration; a
-- re-raise that went out and an exit are the last effect.
unfoldable pub Guarded : (is_wiped registered : Bool) → List Effect → Type 0
Guarded w r [] = Unit
Guarded w r (wiped t ∷ es) = Guarded true r es
Guarded w r (warned ∷ es) = Guarded w r es
Guarded w r (stopped ∷ es) = Guarded w false es
Guarded w r (reraised sig failed ∷ es) =
    (w ≡ true) × (r ≡ false) × ((failed ≡ false → es ≡ []) × Guarded w r es)
Guarded w r (exited status ∷ es) = (w ≡ true) × (r ≡ false) × (es ≡ [])
Guarded w r (notified ∷ es) = Guarded false true es

-- The effects of completeTermination and what follows a signal.
completed-Guarded :
    (status sig : ℕ) (force inherited fails : Bool) (more : List Effect)
    → Guarded false true more
    → Guarded true false (
        (complete_termination status sig force inherited fails).1
        ++ (if not (complete_termination status sig force inherited fails).0
            then []
            else notified ∷ more))
unfolding Guarded complete_termination
completed-Guarded status sig force false false more g = (refl, refl, ((λ e. refl), tt))
completed-Guarded status sig false false true more g = (refl, refl, ((λ e. absurd cc), g))
completed-Guarded status sig true false true more g =
    (refl, refl, ((λ e. absurd cc), (refl, refl, refl)))
completed-Guarded status sig false true fails more g = g
completed-Guarded status sig true true fails more g = (refl, refl, refl)

on_signal-Guarded :
    (status sig : ℕ) (force inherited in_time fails : Bool) (more : List Effect)
    → Guarded false true more
    → Guarded false true (on_signal status sig force inherited in_time fails more)
unfolding Guarded on_signal
on_signal-Guarded status sig force inherited true fails more g =
    completed-Guarded status sig force inherited fails more g
on_signal-Guarded status sig force inherited false fails more g =
    completed-Guarded status sig force inherited fails more g

serve-Guarded :
    (status : ℕ) (force : Bool) (entries : List (ℕ × Bool)) (inputs : List Input)
    → Guarded false true (serve status force entries inputs)
unfolding Guarded serve
serve-Guarded status force entries [] = tt
serve-Guarded status force entries (uninstalled ∷ inputs) = tt
serve-Guarded status force entries (arrival sig in_time fails ∷ inputs) =
    on_signal-Guarded status sig force (ignored entries sig) in_time fails
      (serve status force entries inputs) (serve-Guarded status force entries inputs)

-- Whatever signals arrive and whatever becomes of the wipes and the re-raises: the handler re-raises or
-- exits only after it has wiped and has taken its own channel away, both since it last registered, and
-- after a re-raise that went out or an exit it does nothing more.
pub install_termination_wipe-Guarded :
    (status : ℕ) (force : Bool) (is_ignored : ℕ → Bool) (signals : List ℕ) (inputs : List Input)
    → Guarded false false (install_termination_wipe status force is_ignored signals inputs)
unfolding Guarded install_termination_wipe
install_termination_wipe-Guarded status force is_ignored signals inputs =
    serve-Guarded status force (record_inherited_ignores is_ignored (default_signals signals))
      inputs

-- How many wipes there are, how many exits, and how many signals come before an uninstallation.
unfoldable pub wipes : List Effect → ℕ
wipes [] = 0
wipes (wiped t ∷ es) = suc (wipes es)
wipes (warned ∷ es) = wipes es
wipes (stopped ∷ es) = wipes es
wipes (reraised sig failed ∷ es) = wipes es
wipes (exited status ∷ es) = wipes es
wipes (notified ∷ es) = wipes es

unfoldable pub exits : List Effect → ℕ
exits [] = 0
exits (wiped t ∷ es) = exits es
exits (warned ∷ es) = exits es
exits (stopped ∷ es) = exits es
exits (reraised sig failed ∷ es) = exits es
exits (exited status ∷ es) = suc (exits es)
exits (notified ∷ es) = exits es

unfoldable pub arrivals : List Input → ℕ
arrivals [] = 0
arrivals (uninstalled ∷ inputs) = 0
arrivals (arrival sig in_time fails ∷ inputs) = suc (arrivals inputs)

-- No signal can be re-raised: it was ignored at the installation, or the call fails.
unfoldable pub Unraisable : (entries : List (ℕ × Bool)) → List Input → Type 0
Unraisable entries [] = Unit
Unraisable entries (uninstalled ∷ inputs) = Unit
Unraisable entries (arrival sig in_time fails ∷ inputs) =
    ((ignored entries sig || fails) ≡ true) × Unraisable entries inputs

on_signal-wipes :
    (status sig : ℕ) (inherited in_time fails : Bool) (more : List Effect)
    → (inherited || fails) ≡ true
    → wipes (on_signal status sig false inherited in_time fails more) ≡ suc (wipes more)
unfolding wipes on_signal complete_termination
on_signal-wipes status sig true true fails more h = refl
on_signal-wipes status sig true false fails more h = refl
on_signal-wipes status sig false true true more h = refl
on_signal-wipes status sig false false true more h = refl
on_signal-wipes status sig false in_time false more h = absurd cc

on_signal-exits :
    (status sig : ℕ) (inherited in_time fails : Bool) (more : List Effect)
    → exits more ≡ 0
    → exits (on_signal status sig false inherited in_time fails more) ≡ 0
unfolding exits on_signal complete_termination
on_signal-exits status sig true true fails more h = h
on_signal-exits status sig true false fails more h = h
on_signal-exits status sig false true true more h = h
on_signal-exits status sig false false true more h = h
on_signal-exits status sig false true false more h = refl
on_signal-exits status sig false false false more h = refl

serve-exits :
    (status : ℕ) (entries : List (ℕ × Bool)) (inputs : List Input)
    → exits (serve status false entries inputs) ≡ 0
unfolding exits serve
serve-exits status entries [] = refl
serve-exits status entries (uninstalled ∷ inputs) = refl
serve-exits status entries (arrival sig in_time fails ∷ inputs) =
    on_signal-exits status sig (ignored entries sig) in_time fails
      (serve status false entries inputs) (serve-exits status entries inputs)

serve-wipes :
    (status : ℕ) (entries : List (ℕ × Bool)) (inputs : List Input)
    → Unraisable entries inputs
    → wipes (serve status false entries inputs) ≡ arrivals inputs
unfolding wipes serve arrivals Unraisable
serve-wipes status entries [] u = refl
serve-wipes status entries (uninstalled ∷ inputs) u = refl
serve-wipes status entries (arrival sig in_time fails ∷ inputs) (h, u) =
    on_signal-wipes status sig (ignored entries sig) in_time fails
      (serve status false entries inputs) h
    ∙ ap suc (serve-wipes status entries inputs u)

-- Every wipe answers a signal while the handler's channel is registered, and the channel is registered
-- at the end, unless the last effect is the Stop of an uninstallation.
unfoldable pub Listening : (registered : Bool) → List Effect → Type 0
Listening r [] = r ≡ true
Listening r (wiped t ∷ es) = (r ≡ true) × Listening r es
Listening r (warned ∷ es) = Listening r es
Listening r (stopped ∷ []) = Unit
Listening r (stopped ∷ e ∷ es) = Listening false (e ∷ es)
Listening r (reraised sig failed ∷ es) = Listening r es
Listening r (exited status ∷ es) = Listening r es
Listening r (notified ∷ es) = Listening true es

on_signal-Listening :
    (status sig : ℕ) (inherited in_time fails : Bool) (more : List Effect)
    → (inherited || fails) ≡ true
    → Listening true more
    → Listening true (on_signal status sig false inherited in_time fails more)
unfolding Listening on_signal complete_termination
on_signal-Listening status sig true true fails more h l = (refl, l)
on_signal-Listening status sig true false fails more h l = (refl, l)
on_signal-Listening status sig false true true more h l = (refl, l)
on_signal-Listening status sig false false true more h l = (refl, l)
on_signal-Listening status sig false in_time false more h l = absurd cc

serve-Listening :
    (status : ℕ) (entries : List (ℕ × Bool)) (inputs : List Input)
    → Unraisable entries inputs
    → Listening true (serve status false entries inputs)
unfolding Listening serve Unraisable
serve-Listening status entries [] u = refl
serve-Listening status entries (uninstalled ∷ inputs) u = tt
serve-Listening status entries (arrival sig in_time fails ∷ inputs) (h, u) =
    on_signal-Listening status sig (ignored entries sig) in_time fails
      (serve status false entries inputs) h (serve-Listening status entries inputs u)

-- Where no signal can be re-raised, the installer without an exit stays: it wipes once for every signal
-- that its select takes before it is uninstalled, and never exits; it is registered whenever it answers
-- a signal, and after the last one until it is uninstalled.
pub install_termination_wipe-wipes :
    (status : ℕ) (is_ignored : ℕ → Bool) (signals : List ℕ) (inputs : List Input)
    → Unraisable (record_inherited_ignores is_ignored (default_signals signals)) inputs
    → (wipes (install_termination_wipe status false is_ignored signals inputs) ≡ arrivals inputs)
      × (exits (install_termination_wipe status false is_ignored signals inputs) ≡ 0)
      × Listening false (install_termination_wipe status false is_ignored signals inputs)
unfolding install_termination_wipe wipes exits Listening
install_termination_wipe-wipes status is_ignored signals inputs u =
    let entries = record_inherited_ignores is_ignored (default_signals signals) in
    (
      serve-wipes status entries inputs u,
      serve-exits status entries inputs,
      serve-Listening status entries inputs u,
    )
