-- ===== src/Redact/Handler.antt =====
-- redact/handler.go: the handler, over the sanitizer of text as a parameter. What reflection finds in a
-- value is a tree: the order of a map's entries and the text of package fmt are in it, and so is the text
-- that a value's own methods give. A text is a list of runes, so that the render cap counts runes and not
-- bytes.
pub mod Masked
pub mod Concealed
use secmem.Prelude.{
  ℕ, suc, ◌+◌, ◌-◌, Bool, true, false, ◌||◌, if◌then◌else◌, ltb, ◌==◌, List, [], ◌∷◌, ◌++◌, length,
  take, codes,
}
use secmem.Redact.{Unicode, split_key, match}

mutual
  -- slog.Value; a LogValuer holds what it resolves to.
  pub data Value : Type 0 where
    text : List ℕ → Value
    scalar : List ℕ → Value
    valuer : Value → Value
    grouped : Attrs → Value
    any_nil : Value
    any : Tree → Value

  pub data Attrs : Type 0 where
    none_left : Attrs
    attr : (key : List ℕ) → Value → Attrs → Attrs

  pub data Tree : Type 0 where
    -- A nil pointer or interface.
    absent : Tree
    -- Bytes, the text of fmt, and the text of a value's own method.
    printed : List ℕ → Tree
    -- One of the tags that stand for a value, or for a method that failed.
    tagged : List ℕ → Tree
    logged : Value → Tree
    pointer : (to_struct : Bool) → Tree → Tree
    boxed : Tree → Tree
    struct : Fields → Tree
    dict : Fields → Tree
    sequence : Items → Tree

  pub data Fields : Type 0 where
    no_field : Fields
    field : (name : List ℕ) → Tree → Fields → Fields

  pub data Items : Type 0 where
    no_item : Items
    item : Tree → Items → Items

abbrev pub key_tag : List ℕ
key_tag = codes "[REDACTED:key]"

abbrev pub render_cap : ℕ
render_cap = 65536

abbrev pub max_render_depth : ℕ
max_render_depth = 8

-- capWriter.
unfoldable pub cap_write : (s b : List ℕ) → List ℕ
cap_write s b = b ++ take (render_cap - length b) s

abbrev pub is_over : List ℕ → Bool
is_over b = ltb render_cap (length b)

abbrev pub spaced : (first : Bool) → List ℕ → List ℕ
spaced first b = if first then b else b ++ (32 ∷ [])

abbrev pub unless_over : (b more : List ℕ) → List ℕ
unless_over b more = if is_over b then b else more

abbrev pub unless_deep : (depth : ℕ) → (b more : List ℕ) → List ℕ
unless_deep depth b more = if ltb max_render_depth depth then b ++ codes "..." else more

abbrev pub unless_hidden : Bool → Value → Value
unless_hidden hidden v = if hidden then text key_tag else v

-- A struct's name is written whole, a map's under the cap.
abbrev pub write_name : (capped : Bool) → (name b : List ℕ) → List ℕ
write_name capped name b = if capped then cap_write name b else b ++ name

module _ (u : Unicode) (entries : List (List (List ℕ))) where
  abbrev pub full_path : List (List ℕ) → (key : List ℕ) → List (List ℕ)
  full_path path key = path ++ split_key u key

  unfoldable pub is_sensitive : (path : List (List ℕ)) → (key : List ℕ) → Bool
  is_sensitive path key = match entries (full_path path key) (length (split_key u key))

  -- renderValue, renderField, renderMap and renderLogValue: the text b grows.
  unfoldable mutual
    pub render_value : (depth : ℕ) → (path : List (List ℕ)) → Tree → (b : List ℕ) → List ℕ
    render_value depth path absent b = unless_over b (unless_deep depth b (b ++ codes "<nil>"))
    render_value depth path (printed s) b = unless_over b (unless_deep depth b (cap_write s b))
    render_value depth path (tagged s) b = unless_over b (unless_deep depth b (b ++ s))
    render_value depth path (logged v) b =
        unless_over b (unless_deep depth b (render_log_value (suc depth) path v b))
    render_value depth path (pointer to_struct t) b =
        let start = if to_struct then b ++ (b'&' ∷ []) else b in
        unless_over b (unless_deep depth b (render_value (suc depth) path t start))
    render_value depth path (boxed t) b =
        unless_over b (unless_deep depth b (render_value (suc depth) path t b))
    render_value depth path (struct fs) b =
        let body = render_fields false true depth path fs (b ++ codes "{") in
        unless_over b (unless_deep depth b (body ++ codes "}"))
    render_value depth path (dict fs) b =
        let body = render_fields true true depth path fs (b ++ codes "map[") in
        unless_over b (unless_deep depth b (body ++ codes "]"))
    render_value depth path (sequence xs) b =
        let body = render_items true depth path xs (b ++ codes "[") in
        unless_over b (unless_deep depth b (body ++ codes "]"))

    pub render_fields :
        (capped first : Bool)
        → (depth : ℕ) → (path : List (List ℕ)) → Fields
        → (b : List ℕ) → List ℕ
    render_fields capped first depth path no_field b = b
    render_fields capped first depth path (field name t fs) b =
        let named = write_name capped name (spaced first b) ++ codes ":" in
        let shown = render_value (suc depth) (full_path path name) t named in
        let written = if is_sensitive path name then named ++ key_tag else shown in
        unless_over b (render_fields capped false depth path fs written)

    pub render_items :
        (first : Bool) → (depth : ℕ) → (path : List (List ℕ)) → Items → (b : List ℕ) → List ℕ
    render_items first depth path no_item b = b
    render_items first depth path (item t xs) b =
        let shown = render_value (suc depth) path t (spaced first b) in
        unless_over shown (render_items false depth path xs shown)

    pub render_log_value : (depth : ℕ) → (path : List (List ℕ)) → Value → (b : List ℕ) → List ℕ
    render_log_value depth path (text s) b = unless_deep depth b (cap_write s b)
    render_log_value depth path (scalar s) b = unless_deep depth b (cap_write s b)
    render_log_value depth path (valuer v) b = render_log_value depth path v b
    render_log_value depth path any_nil b = unless_deep depth b (unless_over b (b ++ codes "<nil>"))
    render_log_value depth path (any t) b = unless_deep depth b (render_value depth path t b)
    render_log_value depth path (grouped attrs) b =
        let body = render_attrs true depth path attrs (b ++ codes "[") in
        unless_deep depth b (body ++ codes "]")

    pub render_attrs :
        (first : Bool) → (depth : ℕ) → (path : List (List ℕ)) → Attrs → (b : List ℕ) → List ℕ
    render_attrs first depth path none_left b = b
    render_attrs first depth path (attr key v rest) b =
        let named = cap_write key (spaced first b) ++ codes "=" in
        let shown = render_log_value (suc depth) (full_path path key) v named in
        let written = if is_sensitive path key then named ++ key_tag else shown in
        unless_over b (render_attrs false depth path rest written)

  unfoldable pub render : Tree → (path : List (List ℕ)) → List ℕ
  render t path = render_value 0 path t []

  -- sanitizeAttr: the value of an attribute with a key, and a list of attributes.
  module _ (sanitize : List ℕ → List ℕ) where
    unfoldable mutual
      pub sanitize_value :
          (path : List (List ℕ)) → (redact_all : Bool) → (key : List ℕ) → Value → Value
      sanitize_value path redact_all key (text s) =
          unless_hidden (redact_all || is_sensitive path key) (text (sanitize s))
      sanitize_value path redact_all key (scalar s) =
          unless_hidden (redact_all || is_sensitive path key) (scalar s)
      sanitize_value path redact_all key (valuer v) =
          unless_hidden (redact_all || is_sensitive path key) (sanitize_value path redact_all key v)
      sanitize_value path redact_all key (grouped attrs) =
          unless_hidden (redact_all || is_sensitive path key)
            (grouped (sanitize_attrs (full_path path key) false attrs))
      sanitize_value path redact_all key any_nil =
          unless_hidden (redact_all || is_sensitive path key) any_nil
      sanitize_value path redact_all key (any t) =
          unless_hidden (redact_all || is_sensitive path key)
            (text (sanitize (render t (full_path path key))))

      pub sanitize_attrs : (path : List (List ℕ)) → (redact_all : Bool) → Attrs → Attrs
      sanitize_attrs path redact_all none_left = none_left
      sanitize_attrs path redact_all (attr key v rest) =
          attr key (sanitize_value path redact_all key v) (sanitize_attrs path redact_all rest)

-- Handler: WithGroup, WithAttrs and Handle, with what they pass on to the inner handler.
pub record State : Type 0 where
  pub path : List (List ℕ)
  pub redact_all : Bool

module _ (u : Unicode) (entries : List (List (List ℕ))) where
  unfoldable pub with_group : (name : List ℕ) → State → State
  with_group name h = if length name == 0 then h else record {
    path = full_path u entries h.path name;
    redact_all = h.redact_all || is_sensitive u entries h.path name;
  }

  unfoldable pub with_attrs : (sanitize : List ℕ → List ℕ) → State → Attrs → Attrs
  with_attrs sanitize h attrs = sanitize_attrs u entries sanitize h.path h.redact_all attrs

  unfoldable pub handle :
      (sanitize : List ℕ → List ℕ) → State → (message : List ℕ) → Attrs → List ℕ × Attrs
  handle sanitize h message attrs =
      (sanitize message, sanitize_attrs u entries sanitize h.path h.redact_all attrs)
