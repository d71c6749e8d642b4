-- ===== src/Redact/Sanitizer/Passes.antt =====
-- redact/sanitizer.go: how long a sanitized text is, and when sanitizing it again changes nothing.
use secmem.Prelude.{
  drop-append, ℕ, zero, suc, ◌+◌, ◌-◌, ◌≤◌, ◌<◌, true, ◌&&◌, ◌||◌, leb, ◌==◌, List, ◌++◌, length,
  length-append, length-take, take, drop, equal_bytes, equal_bytes→eq, equal_bytes_self, Bool-cases,
  ◌≡◌, ◌⊎◌, inl, inr, refl, sym, ap, subst, ◌∙◌, arith,
}
use secmem.Redact.Sanitizer.{
  truncated_tag, max_sanitize_passes, has_suffix, rune_cut, truncate, apply_rules, one_pass, passes,
  sanitize,
}

rune_cut-le : (m : List ℕ) (cut : ℕ) → rune_cut m cut ≤ cut
unfolding rune_cut
rune_cut-le m zero = omega arith
rune_cut-le m (suc cut) = ground (arith, rune_cut-le m cut)

has_suffix-append : (xs ys : List ℕ) → has_suffix (xs ++ ys) ys ≡ true
unfolding has_suffix
has_suffix-append xs ys =
    let size = length-append xs ys in
    let gap : length (xs ++ ys) - length ys ≡ length xs = omega (arith, size) in
    let tail : drop (length (xs ++ ys) - length ys) (xs ++ ys) ≡ ys =
      ap (λ n. drop n (xs ++ ys)) gap ∙ drop-append xs ys in
    let same : equal_bytes (drop (length (xs ++ ys) - length ys) (xs ++ ys)) ys ≡ true =
      ap (λ r. equal_bytes r ys) tail ∙ equal_bytes_self ys in
    ground (arith, size, same)

-- A text that truncate leaves alone.
abbrev pub Fits : (max_len : ℕ) → List ℕ → Type 0
Fits max_len m =
    (max_len ≡ 0)
    ⊎ ((length m ≤ max_len)
        ⊎ ((has_suffix m truncated_tag ≡ true) × (length m - length truncated_tag ≤ max_len)))

truncate-same : (max_len : ℕ) (m : List ℕ) → Fits max_len m → truncate max_len m ≡ m
unfolding truncate
truncate-same max_len m fits = ground (arith, fits)

marked-Fits :
    (max_len : ℕ) (m front : List ℕ)
    → length front ≤ max_len
    → Fits max_len (front ++ truncated_tag)
marked-Fits max_len m front h =
    inr (
      inr (has_suffix-append front truncated_tag, omega (arith, length-append front truncated_tag)))

truncate-Fits : (max_len : ℕ) (m : List ℕ) → Fits max_len (truncate max_len m)
unfolding truncate
truncate-Fits max_len m =
    let cut = take (rune_cut m max_len) m in
    let short : length cut ≤ max_len =
      omega (arith, length-take (rune_cut m max_len) m, rune_cut-le m max_len) in
    elim (Bool-cases ((max_len == 0) || leb (length m) max_len)) [
      | inl whole ↦
          let same : m ≡ truncate max_len m = ground (arith, whole) in
          subst (Fits max_len) same (ground (arith, whole))
      | inr long ↦
          elim (Bool-cases
            (has_suffix m truncated_tag && leb (length m - length truncated_tag) max_len)) [
              | inl before ↦
                  let same : m ≡ truncate max_len m = ground (arith, long, before) in
                  subst (Fits max_len) same
                    (inr (inr (ground (arith, before), ground (arith, before))))
              | inr fresh ↦
                  let same : cut ++ truncated_tag ≡ truncate max_len m =
                    ground (arith, long, fresh) in
                  subst (Fits max_len) same (marked-Fits max_len m cut short)
            ]
    ]

Fits-length :
    (max_len : ℕ) (m : List ℕ)
    → 0 < max_len
    → Fits max_len m
    → length m ≤ max_len + length truncated_tag
Fits-length max_len m pos (inl none_set) = absurd (omega arith)
Fits-length max_len m pos (inr (inl short)) = omega arith
Fits-length max_len m pos (inr (inr (marked, short))) = omega arith

module _ (max_len : ℕ) (strip : List ℕ → List ℕ) (rules : List (List ℕ → List ℕ)) where
  abbrev pub pass : List ℕ → List ℕ
  pass = one_pass max_len strip rules

  abbrev pub after : ℕ → List ℕ → List ℕ
  after zero m = m
  after (suc k) m = after k (pass m)

  -- One of the first passes changes nothing.
  abbrev pub Settles : (left : ℕ) → List ℕ → Type 0
  Settles left m = (k : ℕ) × (k < left) × (pass (after k m) ≡ after k m)

  one_pass-Fits : (m : List ℕ) → Fits max_len (pass m)
  unfolding one_pass
  one_pass-Fits m = truncate-Fits max_len (strip (apply_rules max_len strip rules rules m))

  passes-Fits :
      (left : ℕ) (m : List ℕ) → Fits max_len m → Fits max_len (passes max_len strip rules left m)
  unfolding passes
  passes-Fits zero m fits = fits
  passes-Fits (suc left) m fits =
      let now = one_pass-Fits m in
      let later = passes-Fits left (pass m) now in
      elim (Bool-cases (equal_bytes (pass m) m)) [
        | inl same ↦
            let way : pass m ≡ passes max_len strip rules (suc left) m = ground (arith, same) in
            subst (Fits max_len) way now
        | inr other ↦
            let way : passes max_len strip rules left (pass m)
                ≡ passes max_len strip rules (suc left) m =
              ground (arith, other) in
            subst (Fits max_len) way later
      ]

  -- A text that a pass leaves alone comes out of every number of passes.
  passes_at_rest : (left : ℕ) (m : List ℕ) → pass m ≡ m → passes max_len strip rules left m ≡ m
  unfolding passes
  passes_at_rest zero m h = refl
  passes_at_rest (suc left) m h =
      let same : equal_bytes (pass m) m ≡ true = ap (λ x. equal_bytes x m) h ∙ equal_bytes_self m in
      ground (arith, same, h)

  passes-settled :
      (left : ℕ) (m : List ℕ)
      → Settles left m
      → pass (passes max_len strip rules left m) ≡ passes max_len strip rules left m
  unfolding passes
  passes-settled zero m (k, low, still) = absurd (omega arith)
  passes-settled (suc left) m (zero, low, still) =
      let rest = passes_at_rest (suc left) m still in ap pass rest ∙ still ∙ sym rest
  passes-settled (suc left) m (suc k, low, still) =
      let ih = passes-settled left (pass m) (k, omega arith, still) in
      elim (Bool-cases (equal_bytes (pass m) m)) [
        | inl same ↦
            let at : pass m ≡ m = equal_bytes→eq (pass m) m same in
            let rest = passes_at_rest (suc left) m at in ap pass rest ∙ at ∙ sym rest
        | inr other ↦
            let way : passes max_len strip rules (suc left) m
                ≡ passes max_len strip rules left (pass m) =
              ground (arith, other) in
            ap pass way ∙ ih ∙ sym way
      ]

  -- With a limit, a sanitized text is no longer than the limit and the marker.
  pub length-sanitize :
      (m : List ℕ)
      → 0 < max_len
      → length (sanitize max_len strip rules m) ≤ max_len + length truncated_tag
  unfolding sanitize
  length-sanitize m pos =
      let bound =
        Fits-length max_len (passes max_len strip rules max_sanitize_passes (truncate max_len m))
          pos (passes-Fits max_sanitize_passes (truncate max_len m) (truncate-Fits max_len m)) in
      ground (arith, bound)

  -- Sanitizing a sanitized text changes nothing, whatever the rules are, if one of the sixteen passes
  -- over the text changed nothing.
  pub sanitize-sanitize :
      (m : List ℕ)
      → Settles max_sanitize_passes (truncate max_len m)
      → sanitize max_len strip rules (sanitize max_len strip rules m)
        ≡ sanitize max_len strip rules m
  unfolding sanitize
  sanitize-sanitize m settles =
      let r = passes max_len strip rules max_sanitize_passes (truncate max_len m) in
      let still = passes-settled max_sanitize_passes (truncate max_len m) settles in
      let whole =
        truncate-same max_len r
          (passes-Fits max_sanitize_passes (truncate max_len m) (truncate-Fits max_len m)) in
      let again : passes max_len strip rules max_sanitize_passes (truncate max_len r) ≡ r =
        ap (passes max_len strip rules max_sanitize_passes) whole
        ∙ passes_at_rest max_sanitize_passes r still in
      ground (arith, again)
