-- ===== src/Tests/Canaries.antt =====
-- canary.go on a small arena: three slots of two bytes in a slab of 64.
use secmem.Prelude.{ℕ, ◌+◌, ◌≡◌, refl, ◌↔◌, true, false, some, List, [], ◌∷◌, write, replicate}
use secmem.Canary.{CanaryLayout, arena_canary, arm, intact, zones, pattern_bytes, proceed}
use secmem.Canary.Guards.{Violated, intact_iff}

abbrev pattern : ℕ → ℕ
pattern i = i + 1

abbrev layout : CanaryLayout
layout = record { stride = 18; slot_size = 2; count = 3; tail_lo = 54; tail_hi = 64 }

abbrev blank : List ℕ
blank = replicate 64 0

layout_test : arena_canary 18 2 3 64 ≡ layout
unfolding arena_canary
layout_test = refl

zones_test : zones layout ≡ (2, 18) ∷ (20, 36) ∷ (38, 54) ∷ (54, 64) ∷ []
unfolding zones
zones_test = refl

blank_violated : intact (some pattern) layout blank ≡ false
unfolding intact proceed
blank_violated = refl

armed_intact : intact (some pattern) layout (arm (some pattern) layout blank).0 ≡ true
unfolding intact arm proceed pattern_bytes
armed_intact = refl

-- One flipped byte behind slot 1.
overflow_seen :
    intact (some pattern) layout (write 20 (9 ∷ []) (arm (some pattern) layout blank).0) ≡ false
unfolding intact arm proceed pattern_bytes
overflow_seen = refl

intact_iff_example : (intact (some pattern) layout blank ≡ false) ↔ Violated pattern layout blank
intact_iff_example = intact_iff pattern layout blank
