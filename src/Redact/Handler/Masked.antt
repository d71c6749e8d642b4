-- ===== src/Redact/Handler/Masked.antt =====
-- redact/handler.go: what stands under a sensitive key does not reach the inner handler.
use secmem.Prelude.{
  ℕ, suc, Bool, true, false, ◌||◌, if◌then◌else◌, List, ◌++◌, ◌≡◌, refl, ap, ◌∙◌, codes,
}
use secmem.Redact.{Unicode}
use secmem.Redact.Handler.{
  Value, text, scalar, valuer, grouped, any_nil, any, Attrs, none_left, attr, Tree, absent, printed,
  tagged, logged, pointer, boxed, struct, dict, sequence, Fields, no_field, field, Items, no_item,
  item, key_tag, cap_write, spaced, unless_over, unless_deep, write_name, full_path, is_sensitive,
  render_value, render_fields, render_items, render_log_value, render_attrs,
}

abbrev pub hide_tree : Bool → Tree → Tree
hide_tree hidden t = if hidden then absent else t

abbrev pub hide_value : Bool → Value → Value
hide_value hidden v = if hidden then any_nil else v

module _ (u : Unicode) (entries : List (List (List ℕ))) where
  -- Every value under a sensitive key is replaced by nil.
  unfoldable mutual
    pub mask_tree : (path : List (List ℕ)) → Tree → Tree
    mask_tree path absent = absent
    mask_tree path (printed s) = printed s
    mask_tree path (tagged s) = tagged s
    mask_tree path (logged v) = logged (mask_logged path v)
    mask_tree path (pointer to_struct t) = pointer to_struct (mask_tree path t)
    mask_tree path (boxed t) = boxed (mask_tree path t)
    mask_tree path (struct fs) = struct (mask_fields path fs)
    mask_tree path (dict fs) = dict (mask_fields path fs)
    mask_tree path (sequence xs) = sequence (mask_items path xs)

    pub mask_fields : (path : List (List ℕ)) → Fields → Fields
    mask_fields path no_field = no_field
    mask_fields path (field name t fs) =
        field name
          (hide_tree (is_sensitive u entries path name)
            (mask_tree (full_path u entries path name) t))
          (mask_fields path fs)

    pub mask_items : (path : List (List ℕ)) → Items → Items
    mask_items path no_item = no_item
    mask_items path (item t xs) = item (mask_tree path t) (mask_items path xs)

    pub mask_logged : (path : List (List ℕ)) → Value → Value
    mask_logged path (text s) = text s
    mask_logged path (scalar s) = scalar s
    mask_logged path (valuer v) = valuer (mask_logged path v)
    mask_logged path any_nil = any_nil
    mask_logged path (any t) = any (mask_tree path t)
    mask_logged path (grouped attrs) = grouped (mask_logged_attrs path attrs)

    pub mask_logged_attrs : (path : List (List ℕ)) → Attrs → Attrs
    mask_logged_attrs path none_left = none_left
    mask_logged_attrs path (attr key v rest) =
        attr key
          (hide_value (is_sensitive u entries path key)
            (mask_logged (full_path u entries path key) v))
          (mask_logged_attrs path rest)

  unfoldable mutual
    pub mask_value : (path : List (List ℕ)) → (redact_all : Bool) → (key : List ℕ) → Value → Value
    mask_value path redact_all key (text s) =
        hide_value (redact_all || is_sensitive u entries path key) (text s)
    mask_value path redact_all key (scalar s) =
        hide_value (redact_all || is_sensitive u entries path key) (scalar s)
    mask_value path redact_all key (valuer v) =
        hide_value (redact_all || is_sensitive u entries path key)
          (valuer (mask_value path redact_all key v))
    mask_value path redact_all key any_nil = any_nil
    mask_value path redact_all key (any t) =
        hide_value (redact_all || is_sensitive u entries path key)
          (any (mask_tree (full_path u entries path key) t))
    mask_value path redact_all key (grouped attrs) =
        hide_value (redact_all || is_sensitive u entries path key)
          (grouped (mask_attrs (full_path u entries path key) false attrs))

    pub mask_attrs : (path : List (List ℕ)) → (redact_all : Bool) → Attrs → Attrs
    mask_attrs path redact_all none_left = none_left
    mask_attrs path redact_all (attr key v rest) =
        attr key (mask_value path redact_all key v) (mask_attrs path redact_all rest)

  -- A tag or a rendering: what is hidden is not rendered.
  hidden_tree :
      (hidden : Bool) (tag named : List ℕ) (depth : ℕ) (path : List (List ℕ)) (t masked : Tree)
      → render_value u entries depth path masked named ≡ render_value u entries depth path t named
      → (if hidden then tag else render_value u entries depth path (hide_tree hidden masked) named)
        ≡ (if hidden then tag else render_value u entries depth path t named)
  hidden_tree true tag named depth path t masked e = refl
  hidden_tree false tag named depth path t masked e = e

  hidden_logged :
      (hidden : Bool) (tag named : List ℕ) (depth : ℕ) (path : List (List ℕ)) (v masked : Value)
      → render_log_value u entries depth path masked named
        ≡ render_log_value u entries depth path v named
      → (if hidden
          then tag
          else render_log_value u entries depth path (hide_value hidden masked) named)
        ≡ (if hidden then tag else render_log_value u entries depth path v named)
  hidden_logged true tag named depth path v masked e = refl
  hidden_logged false tag named depth path v masked e = e

  mutual
    unfolding render_value mask_tree

    pub render_value-mask :
        (depth : ℕ) (path : List (List ℕ)) (t : Tree) (b : List ℕ)
        → render_value u entries depth path (mask_tree path t) b
          ≡ render_value u entries depth path t b
    render_value-mask depth path absent b = refl
    render_value-mask depth path (printed s) b = refl
    render_value-mask depth path (tagged s) b = refl
    render_value-mask depth path (logged v) b =
        ap (λ x. unless_over b (unless_deep depth b x)) (render_log_value-mask (suc depth) path v b)
    render_value-mask depth path (pointer to_struct t) b =
        ap (λ x. unless_over b (unless_deep depth b x))
          (render_value-mask (suc depth) path t (if to_struct then b ++ codes "&" else b))
    render_value-mask depth path (boxed t) b =
        ap (λ x. unless_over b (unless_deep depth b x)) (render_value-mask (suc depth) path t b)
    render_value-mask depth path (struct fs) b =
        ap (λ x. unless_over b (unless_deep depth b (x ++ codes "}")))
          (render_fields-mask false true depth path fs (b ++ codes "{"))
    render_value-mask depth path (dict fs) b =
        ap (λ x. unless_over b (unless_deep depth b (x ++ codes "]")))
          (render_fields-mask true true depth path fs (b ++ codes "map["))
    render_value-mask depth path (sequence xs) b =
        ap (λ x. unless_over b (unless_deep depth b (x ++ codes "]")))
          (render_items-mask true depth path xs (b ++ codes "["))

    render_fields-mask :
        (capped first : Bool) (depth : ℕ) (path : List (List ℕ)) (fs : Fields) (b : List ℕ)
        → render_fields u entries capped first depth path (mask_fields path fs) b
          ≡ render_fields u entries capped first depth path fs b
    render_fields-mask capped first depth path no_field b = refl
    render_fields-mask capped first depth path (field name t fs) b =
        let named = write_name capped name (spaced first b) ++ codes ":" in
        let inside = full_path u entries path name in
        let hidden = is_sensitive u entries path name in
        let masked = mask_tree inside t in
        let one =
          hidden_tree hidden (named ++ key_tag) named (suc depth) inside t masked
            (render_value-mask (suc depth) inside t named) in
        let written =
          if hidden then named ++ key_tag else render_value u entries (suc depth) inside t named in
        ap (unless_over b) (
          ap (render_fields u entries capped false depth path (mask_fields path fs)) one
          ∙ render_fields-mask capped false depth path fs written)

    render_items-mask :
        (first : Bool) (depth : ℕ) (path : List (List ℕ)) (xs : Items) (b : List ℕ)
        → render_items u entries first depth path (mask_items path xs) b
          ≡ render_items u entries first depth path xs b
    render_items-mask first depth path no_item b = refl
    render_items-mask first depth path (item t xs) b =
        let shown = render_value u entries (suc depth) path t (spaced first b) in
        ap (λ x. unless_over x (render_items u entries false depth path (mask_items path xs) x))
          (render_value-mask (suc depth) path t (spaced first b))
        ∙ ap (unless_over shown) (render_items-mask false depth path xs shown)

    render_log_value-mask :
        (depth : ℕ) (path : List (List ℕ)) (v : Value) (b : List ℕ)
        → render_log_value u entries depth path (mask_logged path v) b
          ≡ render_log_value u entries depth path v b
    render_log_value-mask depth path (text s) b = refl
    render_log_value-mask depth path (scalar s) b = refl
    render_log_value-mask depth path (valuer v) b = render_log_value-mask depth path v b
    render_log_value-mask depth path any_nil b = refl
    render_log_value-mask depth path (any t) b =
        ap (unless_deep depth b) (render_value-mask depth path t b)
    render_log_value-mask depth path (grouped attrs) b =
        ap (λ x. unless_deep depth b (x ++ codes "]"))
          (render_attrs-mask true depth path attrs (b ++ codes "["))

    render_attrs-mask :
        (first : Bool) (depth : ℕ) (path : List (List ℕ)) (attrs : Attrs) (b : List ℕ)
        → render_attrs u entries first depth path (mask_logged_attrs path attrs) b
          ≡ render_attrs u entries first depth path attrs b
    render_attrs-mask first depth path none_left b = refl
    render_attrs-mask first depth path (attr key v rest) b =
        let named = cap_write key (spaced first b) ++ codes "=" in
        let inside = full_path u entries path key in
        let hidden = is_sensitive u entries path key in
        let masked = mask_logged inside v in
        let one =
          hidden_logged hidden (named ++ key_tag) named (suc depth) inside v masked
            (render_log_value-mask (suc depth) inside v named) in
        let written =
          if hidden
          then named ++ key_tag
          else render_log_value u entries (suc depth) inside v named in
        ap (unless_over b) (
          ap (render_attrs u entries false depth path (mask_logged_attrs path rest)) one
          ∙ render_attrs-mask false depth path rest written)
