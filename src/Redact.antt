-- ===== src/Redact.antt =====
-- redact/handler.go: the keys that are sensitive, and the components that a key is split into. A string
-- is its list of runes; the tables of package unicode and strings.ToLower are a parameter.
pub mod KeyMatch
pub mod Handler
pub mod Sanitizer
use secmem.Prelude.{
  ℕ, zero, suc, ◌+◌, ◌-◌, Bool, true, false, not, ◌&&◌, ◌||◌, if◌then◌else◌, ltb, ◌==◌, List, [],
  ◌∷◌, ◌++◌, length, take, drop, equal_bytes,
}

pub record Unicode : Type 0 where
  pub is_letter : ℕ → Bool
  pub is_number : ℕ → Bool
  pub is_mark : ℕ → Bool
  pub is_digit : ℕ → Bool
  pub is_upper : ℕ → Bool
  pub is_lower : ℕ → Bool
  pub to_lower : List ℕ → List ℕ

abbrev pub equal_bools : Bool → Bool → Bool
equal_bools a b = if a then b else not b

module _ (u : Unicode) where
  abbrev pub is_separator : ℕ → Bool
  is_separator r = not (u.is_letter r) && not (u.is_number r) && not (u.is_mark r)

  abbrev pub next_is_lower : List ℕ → Bool
  next_is_lower [] = false
  next_is_lower (r ∷ rs) = u.is_lower r

  -- Whether a component ends before the rune r: a digit beside what is not one, a capital after a small
  -- letter, and the last capital of several.
  unfoldable pub is_boundary : (prev r : ℕ) → (rs : List ℕ) → Bool
  is_boundary prev r rs =
      not (equal_bools (u.is_digit r) (u.is_digit prev))
      || (u.is_upper r && u.is_lower prev)
      || (u.is_upper r && u.is_upper prev && next_is_lower rs)

  abbrev pub flush : (cur : List ℕ) → List (List ℕ)
  flush [] = []
  flush (r ∷ cur) = u.to_lower (r ∷ cur) ∷ []

  -- splitKey from a rune on, with the rune before it and the component that is open.
  unfoldable pub split_from : (prev : ℕ) → (cur : List ℕ) → List ℕ → List (List ℕ)
  split_from prev cur [] = flush cur
  split_from prev cur (r ∷ rs) =
      let closed = split_from r [] rs in
      let begun = split_from r (r ∷ []) rs in
      let longer = split_from r (cur ++ (r ∷ [])) rs in
      if is_separator r
      then flush cur ++ closed
      else if ltb 0 (length cur) && is_boundary prev r rs
      then flush cur ++ begun
      else longer

  unfoldable pub split_key : List ℕ → List (List ℕ)
  split_key key = split_from 0 [] key

  -- newKeySet.
  unfoldable pub new_key_set : List (List ℕ) → List (List (List ℕ))
  new_key_set [] = []
  new_key_set (n ∷ names) =
      let rest = new_key_set names in
      let comps = split_key n in if ltb 0 (length comps) then comps ∷ rest else rest

unfoldable pub equal_comps : List (List ℕ) → List (List ℕ) → Bool
equal_comps [] bs = true
equal_comps (a ∷ xs) [] = false
equal_comps (a ∷ xs) (b ∷ bs) = let rest = equal_comps xs bs in equal_bytes a b && rest

-- The inner loop of match, over n places from i on.
unfoldable pub scan : (n i : ℕ) → (path e : List (List ℕ)) → Bool
scan zero i path e = false
scan (suc n) i path e =
    let rest = scan n (suc i) path e in
    if equal_comps (take (length e) (drop i path)) e then true else rest

-- keySet.match: the run has to reach into the last key_comps components.
unfoldable pub match_entries :
    (path : List (List ℕ)) → (key_comps : ℕ) → List (List (List ℕ)) → Bool
match_entries path key_comps [] = false
match_entries path key_comps (e ∷ es) =
    let rest = match_entries path key_comps es in
    let first = length path - key_comps + 1 - length e in
    if ltb (length path) (length e)
    then rest
    else if scan (length path - length e + 1 - first) first path e
    then true
    else rest

unfoldable pub match :
    (entries : List (List (List ℕ))) → (path : List (List ℕ)) → (key_comps : ℕ) → Bool
match entries path key_comps =
    if (key_comps == 0) || (length path == 0) then false else match_entries path key_comps entries
