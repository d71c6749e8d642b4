-- ===== src/Tests/Registrations.antt =====
-- registry.go on a janitor with one live and one wiped registration.
use secmem.Prelude.{true, [], ◌∷◌}
use secmem.Canary.{no_canary}
use secmem.KeyMap.{lookup, insert}
use secmem.Registry.{Janitor, JanitorRegion, empty_janitor, register, move_to_wiped_if}
use secmem.Registry.Sets.{Apart, register-Apart, empty-Apart, move_to_wiped_if-Apart}

abbrev entry : JanitorRegion
entry = record { id = 7; canary = no_canary; has_cipher = true }

abbrev one : Janitor
one = record { next_key = 1; regions = (1, entry) ∷ []; wiped = [] }

one-Apart : Apart one
unfolding register lookup insert
one-Apart = register-Apart entry empty_janitor empty-Apart

moved-Apart : Apart (move_to_wiped_if 1 7 one).0
moved-Apart = move_to_wiped_if-Apart 1 7 one one-Apart
