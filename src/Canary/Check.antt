-- ===== src/Canary/Check.antt =====
-- canary.go, canaryLayout.intact: it passes exactly when every zone holds the pattern.
use secmem.Prelude.{
  ℕ, ◌-◌, ◌≡◌, refl, sym, ap, ◌∙◌, inl, inr, ◌↔◌, true, false, if◌then◌else◌, Bool-cases, some,
  List, [], ◌∷◌, length, slice, arith,
}
use secmem.Prelude.Slices.{length-slice}
use secmem.Canary.{
  CanaryLayout, pattern_bytes, canary_intact, in_bounds, visit, zones, check_zone, intact, arm,
}
use secmem.Canary.Pattern.{canary_intact_iff}
use secmem.Canary.Zones.{
  Armed, Ascending, armed_all, armed_all-Armed, arm_lem, proceed-true, proceed-false,
}

check_zone_out :
    (p : ℕ → ℕ) (inner : List ℕ) (lo hi : ℕ)
    → in_bounds lo hi (length inner) ≡ false
    → check_zone (some p) inner lo hi true ≡ (true, true)
unfolding check_zone
check_zone_out p inner lo hi out = rw out

check_zone_in :
    (p : ℕ → ℕ) (inner : List ℕ) (lo hi : ℕ)
    → in_bounds lo hi (length inner) ≡ true
    → check_zone (some p) inner lo hi true
      ≡ (if canary_intact (some p) (slice lo (hi - lo) inner) then (true, true) else (false, false))
unfolding check_zone
check_zone_in p inner lo hi within = rw within

-- One round of the walk, seen from its answer.
pub visit-check_zone :
    (p : ℕ → ℕ) (inner : List ℕ) (lo hi : ℕ) (zs : List (ℕ × ℕ))
    → let rest = visit (check_zone (some p) inner) zs true in
      visit (check_zone (some p) inner) ((lo, hi) ∷ zs) true ≡ (
        if in_bounds lo hi (length inner)
        then (if canary_intact (some p) (slice lo (hi - lo) inner) then rest else false)
        else rest)
unfolding visit
visit-check_zone p inner lo hi zs = elim (Bool-cases (in_bounds lo hi (length inner))) [
  | inr out ↦ rw (check_zone_out p inner lo hi out, out, proceed-true)
  | inl within ↦ elim (Bool-cases (canary_intact (some p) (slice lo (hi - lo) inner))) [
    | inl same ↦ rw (check_zone_in p inner lo hi within, within, same, proceed-true)
    | inr off ↦ rw (check_zone_in p inner lo hi within, within, off, proceed-false)
  ]
]

-- In bounds, the check of one zone is the comparison with the pattern.
pub zone_iff :
    (p : ℕ → ℕ) (inner : List ℕ) (lo hi : ℕ)
    → in_bounds lo hi (length inner) ≡ true
    → (canary_intact (some p) (slice lo (hi - lo) inner) ≡ true)
      ↔ (slice lo (hi - lo) inner ≡ pattern_bytes p 0 (hi - lo))
zone_iff p inner lo hi within =
    let size = length-slice lo (hi - lo) inner (ground arith) in
    let iff = canary_intact_iff p (slice lo (hi - lo) inner) in
    (λ h. iff.0 h ∙ ap (pattern_bytes p 0) size, λ h. iff.1 (h ∙ ap (pattern_bytes p 0) (sym size)))

visit-Armed :
    (p : ℕ → ℕ) (inner : List ℕ) (zs : List (ℕ × ℕ))
    → visit (check_zone (some p) inner) zs true ≡ true
    → Armed p inner zs
visit-Armed p inner [] h = tt
visit-Armed p inner ((lo, hi) ∷ zs) h = (
  λ within. (zone_iff p inner lo hi within).0 (ground (arith, visit-check_zone p inner lo hi zs)),
  visit-Armed p inner zs (ground (arith, visit-check_zone p inner lo hi zs)),
)

Armed-visit :
    (p : ℕ → ℕ) (inner : List ℕ) (zs : List (ℕ × ℕ))
    → Armed p inner zs
    → visit (check_zone (some p) inner) zs true ≡ true
unfolding visit
Armed-visit p inner [] a = refl
Armed-visit p inner ((lo, hi) ∷ zs) a = elim (Bool-cases (in_bounds lo hi (length inner))) [
  | inr out ↦ visit-check_zone p inner lo hi zs ∙ rw out (Armed-visit p inner zs a.1)
  | inl within ↦
      visit-check_zone p inner lo hi zs
      ∙ rw (within, (zone_iff p inner lo hi within).1 (a.0 within)) (Armed-visit p inner zs a.1)
]

pub intact-Armed :
    (p : ℕ → ℕ) (c : CanaryLayout) (inner : List ℕ)
    → (intact (some p) c inner ≡ true) ↔ Armed p inner (zones c)
unfolding intact
intact-Armed p c inner = (visit-Armed p inner (zones c), Armed-visit p inner (zones c))

-- For a layout whose zones ascend, intact accepts the bytes that arm has armed.
pub intact-arm :
    (p : ℕ → ℕ) (c : CanaryLayout) (inner : List ℕ)
    → Ascending 0 (zones c)
    → intact (some p) c (arm (some p) c inner).0 ≡ true
intact-arm p c inner up =
    rw (arm_lem p c inner)
      ((intact-Armed p c (armed_all p (zones c) inner)).1 (armed_all-Armed p 0 (zones c) inner up))
