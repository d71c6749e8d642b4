-- ===== src/Tests/Logs.antt =====
-- Runs of the log handler and of the sanitizer at fixed inputs, with ASCII keys.
use secmem.Prelude.{
  ◌++◌, equal_bytes, Some, ℕ, ◌+◌, ◌<◌, Bool, true, false, ◌&&◌, ◌||◌, if◌then◌else◌, leb, List, [],
  ◌∷◌, map, codes, ◌≡◌, ◌↔◌, refl, arith,
}
use secmem.Redact.{
  Unicode, split_key, split_from, is_boundary, new_key_set, match, match_entries, scan, equal_comps,
}
use secmem.Redact.Sanitizer.{
  sanitize, passes, one_pass, truncate, rune_cut, has_suffix, apply_rules, truncated_tag,
}
use secmem.Redact.Sanitizer.Passes.{Settles, sanitize-sanitize}
use secmem.Redact.KeyMatch.{Reaches, match_iff}
use secmem.Redact.Handler.{
  Attrs, text, any, attr, none_left, struct, field, no_field, printed, pointer, State, handle,
  with_attrs, sanitize_attrs, render, render_value, is_sensitive, cap_write,
}
use secmem.Redact.Handler.Masked.{mask_attrs, mask_tree}
use secmem.Redact.Handler.Concealed.{handle-concealed}

abbrev between : ℕ → ℕ → ℕ → Bool
between low high c = leb low c && leb c high

abbrev ascii : Unicode
ascii = record {
  is_letter = λ c. between 65 90 c || between 97 122 c;
  is_number = between 48 57;
  is_mark = λ c. false;
  is_digit = between 48 57;
  is_upper = between 65 90;
  is_lower = between 97 122;
  to_lower = map (λ c. if between 65 90 c then c + 32 else c);
}

split :
    split_key ascii (codes "myAPIKey2_x")
    ≡ codes "my" ∷ codes "api" ∷ codes "key" ∷ codes "2" ∷ codes "x" ∷ []
unfolding split_key split_from is_boundary
split = refl

abbrev entries : List (List (List ℕ))
entries = (codes "api" ∷ codes "key" ∷ []) ∷ (codes "password" ∷ []) ∷ []

from_names : new_key_set ascii (codes "apiKey" ∷ codes "-" ∷ codes "Password" ∷ []) ≡ entries
unfolding new_key_set split_key split_from is_boundary
from_names = refl

abbrev path : List (List ℕ)
path = codes "user" ∷ codes "api" ∷ codes "key" ∷ codes "id" ∷ []

match_iff_example : (match entries path 2 ≡ true) ↔ ((0 < 2) × Some (Reaches path 2) entries)
match_iff_example = match_iff entries path 2 (omega arith)

abbrev login : List ℕ → Attrs
login secret = attr (codes "user") (text (codes "bob")) (
    attr (codes "request")
      (any (
        pointer true (
          struct (
            field (codes "Name") (printed (codes "x"))
              (field (codes "APIKey") (printed secret) no_field)))))
      (attr (codes "password") (text secret) none_left))

abbrev top : State
top = record { path = []; redact_all = false }

handled : handle ascii entries (λ s. s) top (codes "hi") (login (codes "s3")) ≡ (
  codes "hi",
  attr (codes "user") (text (codes "bob")) (
      attr
        (codes "request")
        (text (codes "&{Name:x APIKey:[REDACTED:key]}"))
        (attr (codes "password") (text (codes "[REDACTED:key]")) none_left)),
)
unfolding handle sanitize_attrs render render_value is_sensitive match match_entries scan
    equal_comps split_key split_from is_boundary cap_write
handled = refl

masked_alike :
    mask_attrs ascii entries [] false (login (codes "s3"))
    ≡ mask_attrs ascii entries [] false (login (codes "other"))
unfolding mask_attrs mask_tree is_sensitive match match_entries scan equal_comps split_key
    split_from is_boundary
masked_alike = refl

handle-concealed_example :
    (handle ascii entries (λ s. s) top (codes "hi") (login (codes "s3"))
      ≡ handle ascii entries (λ s. s) top (codes "hi") (login (codes "other")))
    × (with_attrs ascii entries (λ s. s) top (login (codes "s3"))
        ≡ with_attrs ascii entries (λ s. s) top (login (codes "other")))
handle-concealed_example =
    handle-concealed ascii entries (λ s. s) top (codes "hi") (login (codes "s3"))
      (login (codes "other")) masked_alike

-- A limit of four bytes, over a two-byte rune, and a rule that doubles its text.
abbrev doubling : List (List ℕ → List ℕ)
doubling = (λ m. if equal_bytes m (codes "ab") then codes "abab" else m) ∷ []

cut : sanitize 4 (λ m. m) doubling (97 ∷ 98 ∷ 99 ∷ 195 ∷ 169 ∷ []) ≡ codes "abc" ++ truncated_tag
unfolding sanitize passes one_pass truncate rune_cut has_suffix apply_rules
cut = refl

settled : Settles 4 (λ m. m) doubling 16 (truncate 4 (codes "ab"))
unfolding one_pass truncate apply_rules has_suffix rune_cut
settled = (1, omega arith, refl)

sanitize-sanitize_example :
    sanitize 4 (λ m. m) doubling (sanitize 4 (λ m. m) doubling (codes "ab"))
    ≡ sanitize 4 (λ m. m) doubling (codes "ab")
sanitize-sanitize_example = sanitize-sanitize 4 (λ m. m) doubling (codes "ab") settled
