-- ===== src/Redact/Handler/Concealed.antt =====
-- redact/handler.go: records that differ only under sensitive keys are passed on alike.
use secmem.Prelude.{ℕ, Bool, true, false, ◌||◌, List, [], ◌≡◌, refl, sym, ap, ◌∙◌}
use secmem.Redact.{Unicode}
use secmem.Redact.Handler.{
  Value, text, scalar, valuer, grouped, any_nil, any, Attrs, none_left, attr, key_tag,
  unless_hidden, full_path, is_sensitive, render, sanitize_value, sanitize_attrs, State, with_attrs,
  handle,
}
use secmem.Redact.Handler.Masked.{hide_value, mask_value, mask_attrs, render_value-mask}

hides : (hidden : Bool) (v : Value) → hidden ≡ true → unless_hidden hidden v ≡ text key_tag
hides true v h = refl
hides false v h = absurd cc

module _ (u : Unicode) (entries : List (List (List ℕ))) (sanitize : List ℕ → List ℕ) where
  -- A value that is hidden comes out as the tag, whatever it is.
  hidden_value :
      (path : List (List ℕ)) (redact_all : Bool) (key : List ℕ) (v : Value)
      → (redact_all || is_sensitive u entries path key) ≡ true
      → sanitize_value u entries sanitize path redact_all key v ≡ text key_tag
  unfolding sanitize_value
  hidden_value path redact_all key (text s) h = hides _ _ h
  hidden_value path redact_all key (scalar s) h = hides _ _ h
  hidden_value path redact_all key (valuer v) h = hides _ _ h
  hidden_value path redact_all key any_nil h = hides _ _ h
  hidden_value path redact_all key (any t) h = hides _ _ h
  hidden_value path redact_all key (grouped attrs) h = hides _ _ h

  kept_value :
      (path : List (List ℕ)) (redact_all : Bool) (key : List ℕ) (hidden : Bool) (v masked : Value)
      → (redact_all || is_sensitive u entries path key) ≡ hidden
      → sanitize_value u entries sanitize path redact_all key masked
        ≡ sanitize_value u entries sanitize path redact_all key v
      → sanitize_value u entries sanitize path redact_all key (hide_value hidden masked)
        ≡ sanitize_value u entries sanitize path redact_all key v
  kept_value path redact_all key true v masked h e =
      hidden_value path redact_all key any_nil h ∙ sym (hidden_value path redact_all key v h)
  kept_value path redact_all key false v masked h e = e

  mutual
    unfolding sanitize_value mask_value render

    sanitize_value-mask :
        (path : List (List ℕ)) (redact_all : Bool) (key : List ℕ) (v : Value)
        → sanitize_value u entries sanitize path redact_all key
            (mask_value u entries path redact_all key v)
          ≡ sanitize_value u entries sanitize path redact_all key v
    sanitize_value-mask path redact_all key (text s) =
        kept_value path redact_all key _ (text s) (text s) refl refl
    sanitize_value-mask path redact_all key (scalar s) =
        kept_value path redact_all key _ (scalar s) (scalar s) refl refl
    sanitize_value-mask path redact_all key (valuer v) =
        kept_value path redact_all key _ (valuer v) _ refl (
          ap (unless_hidden (redact_all || is_sensitive u entries path key))
            (sanitize_value-mask path redact_all key v))
    sanitize_value-mask path redact_all key any_nil = refl
    sanitize_value-mask path redact_all key (any t) =
        kept_value path redact_all key _ (any t) _ refl (
          ap
            (λ s. unless_hidden (redact_all || is_sensitive u entries path key) (text (sanitize s)))
            (render_value-mask u entries 0 (full_path u entries path key) t []))
    sanitize_value-mask path redact_all key (grouped attrs) =
        kept_value path redact_all key _ (grouped attrs) _ refl (
          ap (λ xs. unless_hidden (redact_all || is_sensitive u entries path key) (grouped xs))
            (sanitize_attrs-mask (full_path u entries path key) false attrs))

    sanitize_attrs-mask :
        (path : List (List ℕ)) (redact_all : Bool) (attrs : Attrs)
        → sanitize_attrs u entries sanitize path redact_all
            (mask_attrs u entries path redact_all attrs)
          ≡ sanitize_attrs u entries sanitize path redact_all attrs
    sanitize_attrs-mask path redact_all none_left = refl
    sanitize_attrs-mask path redact_all (attr key v rest) =
        cc (sanitize_value-mask path redact_all key v, sanitize_attrs-mask path redact_all rest)

  -- Two lists of attributes that are the same once every value under a sensitive key is replaced by nil
  -- are passed on as the same, by Handle and by WithAttrs: what stands there reaches nobody, at any depth
  -- of groups, structs, maps, slices and pointers, and under an open grouped all of whose values are
  -- hidden.
  pub handle-concealed :
      (h : State) (message : List ℕ) (as_one as_other : Attrs)
      → mask_attrs u entries h.path h.redact_all as_one
        ≡ mask_attrs u entries h.path h.redact_all as_other
      → (handle u entries sanitize h message as_one ≡ handle u entries sanitize h message as_other)
        × (with_attrs u entries sanitize h as_one ≡ with_attrs u entries sanitize h as_other)
  unfolding handle with_attrs
  handle-concealed h message as_one as_other e =
      let same =
        sym (sanitize_attrs-mask h.path h.redact_all as_one)
        ∙ ap (sanitize_attrs u entries sanitize h.path h.redact_all) e
        ∙ sanitize_attrs-mask h.path h.redact_all as_other in
      (ap (λ attrs. (sanitize message, attrs)) same, same)
