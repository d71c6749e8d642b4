-- ===== src/Redact/Sanitizer.antt =====
-- redact/sanitizer.go: the passes of a sanitizer over bytes. A rule's pattern and the decoding of UTF-8
-- are library calls: a rule is what it makes of a text.
pub mod Passes
use secmem.Prelude.{
  ℕ, zero, suc, ◌+◌, ◌-◌, Bool, true, false, not, ◌&&◌, ◌||◌, if◌then◌else◌, ltb, leb, ◌==◌, List,
  [], ◌∷◌, ◌++◌, length, get_or, take, drop, codes, equal_bytes,
}

abbrev pub truncated_tag : List ℕ
truncated_tag = codes "[REDACTED:truncated]"

abbrev pub max_sanitize_passes : ℕ
max_sanitize_passes = 16

-- utf8.RuneStart.
abbrev pub rune_start : ℕ → Bool
rune_start b = ltb b 128 || leb 192 b

-- strings.HasSuffix.
unfoldable pub has_suffix : (s tail : List ℕ) → Bool
has_suffix s tail =
    leb (length tail) (length s) && equal_bytes (drop (length s - length tail) s) tail

-- The loop of truncate, down from `cut`.
unfoldable pub rune_cut : (m : List ℕ) → (cut : ℕ) → ℕ
rune_cut m zero = zero
rune_cut m (suc cut) =
    let earlier = rune_cut m cut in if rune_start (get_or m (suc cut) 0) then suc cut else earlier

-- A limit that is not positive is 0.
unfoldable pub truncate : (max_len : ℕ) → List ℕ → List ℕ
truncate max_len m =
    if (max_len == 0) || leb (length m) max_len
    then m
    else if has_suffix m truncated_tag && leb (length m - length truncated_tag) max_len
    then m
    else take (rune_cut m max_len) m ++ truncated_tag

module _ (max_len : ℕ) (strip_non_printable : List ℕ → List ℕ)
    (rules : List (List ℕ → List ℕ)) where
  unfoldable pub apply_rules : List (List ℕ → List ℕ) → List ℕ → List ℕ
  apply_rules [] m = m
  apply_rules (rule ∷ more) m = apply_rules more (rule m)

  unfoldable pub one_pass : List ℕ → List ℕ
  one_pass m = truncate max_len (strip_non_printable (apply_rules rules m))

  -- The loop of Sanitize.
  unfoldable pub passes : (left : ℕ) → (prev : List ℕ) → List ℕ
  passes zero prev = prev
  passes (suc left) prev =
      let rest = passes left (one_pass prev) in
      if equal_bytes (one_pass prev) prev then one_pass prev else rest

  unfoldable pub sanitize : List ℕ → List ℕ
  sanitize m = if length m == 0 then m else passes max_sanitize_passes (truncate max_len m)
