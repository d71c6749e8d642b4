-- ===== src/Canary/Zones.antt =====
-- canary.go, canaryLayout: what arm writes and what intact checks, over any list of zones that
-- ascend, as those of forEachZone do.
use secmem.Prelude.{
  ℕ, ◌+◌, ◌-◌, ◌≤◌, ◌≡◌, refl, sym, ap, ◌∙◌, inl, inr, true, false, if◌then◌else◌, Bool-cases, some,
  List, [], ◌∷◌, length, slice, write, arith,
}
use secmem.Prelude.Slices.{length-write, length-slice, slice-write_self, slice-write_before}
use secmem.Canary.{CanaryLayout, pattern_bytes, in_bounds, proceed, visit, zones, arm_zone, arm}
use secmem.Canary.Pattern.{length-pattern_bytes}

-- Zones that start at k or later, each at or after the end of the one before it.
abbrev pub Ascending : ℕ → List (ℕ × ℕ) → Type 0
Ascending k [] = Unit {0}
Ascending k ((lo, hi) ∷ zs) = (k ≤ lo) × (lo ≤ hi) × Ascending hi zs

-- Every zone inside the region holds the pattern, from its own first byte on.
abbrev pub Armed : (ℕ → ℕ) → List ℕ → List (ℕ × ℕ) → Type 0
Armed p inner [] = Unit {0}
Armed p inner ((lo, hi) ∷ zs) =
    (in_bounds lo hi (length inner) ≡ true → slice lo (hi - lo) inner ≡ pattern_bytes p 0 (hi - lo))
    × Armed p inner zs

-- What one step of arm leaves of the region.
unfoldable pub armed_zone : (ℕ → ℕ) → ℕ → ℕ → List ℕ → List ℕ
armed_zone p lo hi inner =
    if in_bounds lo hi (length inner)
    then write lo (pattern_bytes p 0 (length (slice lo (hi - lo) inner))) inner
    else inner

unfoldable pub armed_all : (ℕ → ℕ) → List (ℕ × ℕ) → List ℕ → List ℕ
armed_all p [] inner = inner
armed_all p ((lo, hi) ∷ zs) inner = armed_all p zs (armed_zone p lo hi inner)

arm_zone_lem :
    (p : ℕ → ℕ) (lo hi : ℕ) (inner : List ℕ)
    → arm_zone (some p) lo hi (inner, []) ≡ ((armed_zone p lo hi inner, []), true)
unfolding arm_zone armed_zone
arm_zone_lem p lo hi inner = elim (Bool-cases (in_bounds lo hi (length inner))) [
  | inl e ↦ rw e
  | inr e ↦ rw e
]

pub proceed-true {ℓ} : {S : Type ℓ} (rest : S → S) (s : S) → proceed rest (s, true) ≡ rest s
unfolding proceed
proceed-true rest s = refl

pub proceed-false {ℓ} : {S : Type ℓ} (rest : S → S) (s : S) → proceed rest (s, false) ≡ s
unfolding proceed
proceed-false rest s = refl

visit-armed_all :
    (p : ℕ → ℕ) (zs : List (ℕ × ℕ)) (inner : List ℕ)
    → visit (arm_zone (some p)) zs (inner, []) ≡ (armed_all p zs inner, [])
unfolding visit armed_all
visit-armed_all p [] inner = refl
visit-armed_all p ((lo, hi) ∷ zs) inner =
    rw (arm_zone_lem p lo hi inner, proceed-true) (visit-armed_all p zs (armed_zone p lo hi inner))

-- With a pattern drawn, arm never fails.
pub arm_lem :
    (p : ℕ → ℕ) (c : CanaryLayout) (inner : List ℕ)
    → arm (some p) c inner ≡ (armed_all p (zones c) inner, [])
unfolding arm
arm_lem p c inner = visit-armed_all p (zones c) inner

length-armed_zone :
    (p : ℕ → ℕ) (lo hi : ℕ) (inner : List ℕ) → length (armed_zone p lo hi inner) ≡ length inner
unfolding armed_zone
length-armed_zone p lo hi inner =
    ground (arith, length-write lo (pattern_bytes p 0 (length (slice lo (hi - lo) inner))) inner)

pub length-armed_all :
    (p : ℕ → ℕ) (zs : List (ℕ × ℕ)) (inner : List ℕ) → length (armed_all p zs inner) ≡ length inner
unfolding armed_all
length-armed_all p [] inner = refl
length-armed_all p ((lo, hi) ∷ zs) inner =
    length-armed_all p zs (armed_zone p lo hi inner) ∙ length-armed_zone p lo hi inner

pub slice-armed_zone_before :
    (p : ℕ → ℕ) (lo hi at n : ℕ) (inner : List ℕ)
    → at + n ≤ lo
    → slice at n (armed_zone p lo hi inner) ≡ slice at n inner
unfolding armed_zone
slice-armed_zone_before p lo hi at n inner h = elim (Bool-cases (in_bounds lo hi (length inner))) [
  | inl e ↦ rw e (slice-write_before at n lo _ inner h)
  | inr e ↦ rw e
]

-- What lies before the first zone is left alone.
pub slice-armed_all_before :
    (p : ℕ → ℕ) (k at n : ℕ) (zs : List (ℕ × ℕ)) (inner : List ℕ)
    → Ascending k zs
    → at + n ≤ k
    → slice at n (armed_all p zs inner) ≡ slice at n inner
unfolding armed_all
slice-armed_all_before p k at n [] inner up h = refl
slice-armed_all_before p k at n ((lo, hi) ∷ zs) inner up h =
    slice-armed_all_before p hi at n zs (armed_zone p lo hi inner) up.2 (omega arith)
    ∙ slice-armed_zone_before p lo hi at n inner (omega arith)

slice-armed_zone_self :
    (p : ℕ → ℕ) (lo hi : ℕ) (inner : List ℕ)
    → in_bounds lo hi (length inner) ≡ true
    → slice lo (hi - lo) (armed_zone p lo hi inner) ≡ pattern_bytes p 0 (hi - lo)
unfolding armed_zone
slice-armed_zone_self p lo hi inner e =
    rw (e, size) (ap (λ n. slice lo n written) (sym long) ∙ slice-write_self lo pat inner fits)
  where
    pat : List ℕ
    pat = pattern_bytes p 0 (hi - lo)

    written : List ℕ
    written = write lo pat inner

    size : length (slice lo (hi - lo) inner) ≡ hi - lo
    size = length-slice lo (hi - lo) inner (ground arith)

    long : length pat ≡ hi - lo
    long = length-pattern_bytes p 0 (hi - lo)

    fits : lo + length pat ≤ length inner
    fits = rw long (ground arith)

pub armed_all-Armed :
    (p : ℕ → ℕ) (k : ℕ) (zs : List (ℕ × ℕ)) (inner : List ℕ)
    → Ascending k zs
    → Armed p (armed_all p zs inner) zs
unfolding armed_all
armed_all-Armed p k [] inner up = tt
armed_all-Armed p k ((lo, hi) ∷ zs) inner up = (
  λ e.
      slice-armed_all_before p hi lo (hi - lo) zs next up.2 (omega arith)
      ∙ slice-armed_zone_self p lo hi inner (rw kept at e),
  armed_all-Armed p hi zs next up.2,
)
  where
    next : List ℕ
    next = armed_zone p lo hi inner

    kept : length (armed_all p zs next) ≡ length inner
    kept = length-armed_all p zs next ∙ length-armed_zone p lo hi inner
