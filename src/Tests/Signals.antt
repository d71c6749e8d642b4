-- ===== src/Tests/Signals.antt =====
-- Runs of the termination handler at fixed inputs.
use secmem.Prelude.{ℕ, Bool, true, false, ◌==◌, [], ◌∷◌, ◌≡◌, refl}
use secmem.Termination.{
  arrival, uninstalled, wiped, warned, stopped, reraised, notified, interrupt, term_signal,
  install_termination_wipe, serve, on_signal, complete_termination, record_inherited_ignores,
  ignored, default_signals,
}
use secmem.Termination.Handler.{
  Guarded, Unraisable, Listening, wipes, exits, arrivals, install_termination_wipe-Guarded,
  install_termination_wipe-wipes,
}

-- A child of a shell that ignores SIGINT.
abbrev in_background : ℕ → Bool
in_background sig = sig == interrupt

interrupted :
    install_termination_wipe 130 false in_background []
      (arrival interrupt true false ∷ arrival term_signal false false ∷ uninstalled ∷ [])
    ≡ notified
      ∷ wiped true
      ∷ stopped
      ∷ warned
      ∷ notified
      ∷ wiped false
      ∷ warned
      ∷ stopped
      ∷ reraised term_signal false
      ∷ []
unfolding install_termination_wipe serve on_signal complete_termination record_inherited_ignores
    ignored default_signals
interrupted = refl

install_termination_wipe-Guarded_example :
    Guarded false false
      (install_termination_wipe 130 true in_background [] (arrival term_signal true false ∷ []))
install_termination_wipe-Guarded_example =
    install_termination_wipe-Guarded 130 true in_background [] (arrival term_signal true false ∷ [])

stuck :
    Unraisable
      (record_inherited_ignores in_background (default_signals []))
      (arrival interrupt true false ∷ arrival term_signal true true ∷ [])
unfolding Unraisable record_inherited_ignores default_signals ignored
stuck = (refl, (refl, tt))

install_termination_wipe-wipes_example :
    (wipes (
        install_termination_wipe 130 false in_background []
          (arrival interrupt true false ∷ arrival term_signal true true ∷ []))
      ≡ arrivals (arrival interrupt true false ∷ arrival term_signal true true ∷ []))
    × (exits (
          install_termination_wipe 130 false in_background []
            (arrival interrupt true false ∷ arrival term_signal true true ∷ []))
        ≡ 0)
    × Listening false (
        install_termination_wipe 130 false in_background []
          (arrival interrupt true false ∷ arrival term_signal true true ∷ []))
install_termination_wipe-wipes_example =
    install_termination_wipe-wipes 130 in_background []
      (arrival interrupt true false ∷ arrival term_signal true true ∷ []) stuck
