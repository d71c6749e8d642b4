-- ===== src/HttpAuth/Cleartext.antt =====
-- httpauth/transport.go: what opts in to sending the credential over cleartext.
use secmem.Prelude.{
  Some, Some-map, ℕ, Bool, true, false, Option, none, some, List, [], ◌∷◌, ◌++◌, equal_bytes→eq,
  Bool-cases, ◌≡◌, ◌≢◌, ◌⊎◌, inl, inr, refl, sym, subst, ◌∙◌, arith,
}
use secmem.HttpAuth.{Strings, HostEntry, Transport, Request, inject, decide, https}
use secmem.HttpAuth.Decide.{Admits, Admitted, decide-inject_iff}
use secmem.HttpAuth.Config.{
  ConfigError, Built, built, rejected, Opt, Options, with_hosts, with_any_host, with_insecure_http,
  apply_options, no_options, cut_scheme, http, parse_host, parse_host_entry, parse_hosts, build,
}

-- What opts in to cleartext: WithInsecureHTTP, or an entry that is written with the scheme http.
abbrev pub IsHttp : Strings → List ℕ → Type 0
IsHttp lib raw =
    (before : List ℕ) × (after : List ℕ) × (cut_scheme raw ≡ some (before, after))
    × (lib.lower before ≡ http)

-- The scheme of an entry that parsed is none, https, or an http that was written.
abbrev Parsed : Strings → List ℕ → HostEntry → Type 0
Parsed lib raw e = (e.scheme ≡ []) ⊎ ((e.scheme ≡ https) ⊎ ((e.scheme ≡ http) × IsHttp lib raw))

parse_host-scheme :
    (lib : Strings) (scheme rest : List ℕ) (e : HostEntry)
    → parse_host lib scheme rest ≡ built e
    → e.scheme ≡ scheme
unfolding parse_host
parse_host-scheme lib scheme rest e h = ground (arith, h)

parse_host_entry-Parsed :
    (lib : Strings) (raw : List ℕ) (cut : Option (List ℕ × List ℕ)) (e : HostEntry)
    → cut_scheme raw ≡ cut
    → parse_host_entry lib raw ≡ built e
    → Parsed lib raw e
unfolding parse_host_entry
parse_host_entry-Parsed lib raw none e at h =
    let whole : parse_host lib [] raw ≡ built e = ground (arith, at, h) in
    inl (parse_host-scheme lib [] raw e whole)
parse_host_entry-Parsed lib raw (some (before, after)) e at h =
    let scheme = lib.lower before in
    let one = equal_bytes→eq scheme http in
    let two = equal_bytes→eq scheme https in
    let whole : parse_host lib scheme after ≡ built e = ground (arith, at, h) in
    let kept = parse_host-scheme lib scheme after e whole in
    let known : (scheme ≡ http) ⊎ (scheme ≡ https) = ground (arith, at, h, one, two) in
    elim known [
      | inl plain ↦ inr (inr (kept ∙ plain, (before, after, at, plain)))
      | inr safe ↦ inr (inl (kept ∙ safe))
    ]

Built-cases {ℓ} :
    {A : Type ℓ} (x : Built A) → ((a : A) × (x ≡ built a)) ⊎ ((e : ConfigError) × (x ≡ rejected e))
Built-cases (built a) = inl (a, refl)
Built-cases (rejected e) = inr (e, refl)

parse_hosts-cons :
    (lib : Strings) (raw : List ℕ) (raws : List (List ℕ)) (es : List HostEntry)
    → parse_hosts lib (raw ∷ raws) ≡ built es
    → (e : HostEntry) × (rest : List HostEntry) × (parse_host_entry lib raw ≡ built e)
      × (parse_hosts lib raws ≡ built rest)
      × (es ≡ e ∷ rest)
unfolding parse_hosts
parse_hosts-cons lib raw raws es h = elim (Built-cases (parse_host_entry lib raw)) [
  | inr (f, bad) ↦ absurd (ground (arith, h, bad))
  | inl (e, fine) ↦ elim (Built-cases (parse_hosts lib raws)) [
    | inr (f, bad) ↦ absurd (ground (arith, h, fine, bad))
    | inl (rest, more) ↦ (e, rest, fine, more, ground (arith, h, fine, more))
  ]
]

-- The text of an entry of a list that parsed.
parse_hosts-Some :
    (lib : Strings) (P : HostEntry → Type 0) (raws : List (List ℕ)) (es : List HostEntry)
    → parse_hosts lib raws ≡ built es
    → Some P es
    → Some (λ raw. (e : HostEntry) × (parse_host_entry lib raw ≡ built e) × P e) raws
unfolding parse_hosts
parse_hosts-Some lib P [] [] h found = found
parse_hosts-Some lib P [] (e ∷ es) h found = absurd (ground (arith, h))
parse_hosts-Some lib P (raw ∷ raws) es h found =
    let (e, rest, fine, more, same) = parse_hosts-cons lib raw raws es h in
    elim (subst (Some P) same found) [
      | inl here ↦ inl (e, fine, here)
      | inr later ↦ inr (parse_hosts-Some lib P raws rest more later)
    ]

-- An entry that admits a scheme other than https, without WithInsecureHTTP.
Admits-IsHttp :
    (lib : Strings) (scheme host raw : List ℕ) (e : HostEntry)
    → scheme ≢ https
    → parse_host_entry lib raw ≡ built e
    → Admits lib false scheme host e
    → IsHttp lib raw
Admits-IsHttp lib scheme host raw e clear parsed (names, inl (none_given, inl safe)) =
    absurd (clear safe)
Admits-IsHttp lib scheme host raw e clear parsed (names, inl (none_given, inr bad)) = absurd cc
Admits-IsHttp lib scheme host raw e clear parsed (names, inr (given, same)) =
    elim (parse_host_entry-Parsed lib raw (cut_scheme raw) e refl parsed) [
      | inl empty ↦ absurd (given empty)
      | inr (inl safe) ↦ absurd (clear (sym same ∙ safe))
      | inr (inr (plain, written)) ↦ written
    ]

-- What build leaves in a transport.
build-fields :
    (lib : Strings) (bare t : Transport) (has_token : Bool) (opts : List Opt)
    → build lib bare has_token opts ≡ built t
    → (t.insecure ≡ (apply_options opts no_options).insecure)
      × (parse_hosts lib (apply_options opts no_options).hosts ≡ built t.hosts)
unfolding build
build-fields lib bare t has_token opts h =
    let c = apply_options opts no_options in
    elim (Built-cases (parse_hosts lib c.hosts)) [
      | inr (f, bad) ↦ absurd (ground (arith, h, bad))
      | inl (hosts, fine) ↦ (ground (arith, h, fine), ground (arith, h, fine))
    ]

-- An option that opts in.
abbrev pub OptsIn : Strings → Opt → Type 0
OptsIn lib (with_hosts entries) = Some (IsHttp lib) entries
OptsIn lib with_any_host = ⊥
OptsIn lib with_insecure_http = Unit

apply_options-insecure :
    (lib : Strings) (opts : List Opt) (c : Options)
    → (apply_options opts c).insecure ≡ true
    → (c.insecure ≡ true) ⊎ Some (OptsIn lib) opts
unfolding apply_options
apply_options-insecure lib [] c h = inl h
apply_options-insecure lib (with_hosts entries ∷ opts) c h =
    elim (apply_options-insecure lib opts (record c { hosts = c.hosts ++ entries }) h) [
      | inl before ↦ inl before
      | inr later ↦ inr (inr later)
    ]
apply_options-insecure lib (with_any_host ∷ opts) c h =
    elim (apply_options-insecure lib opts (record c { any_host = true }) h) [
      | inl before ↦ inl before
      | inr later ↦ inr (inr later)
    ]
apply_options-insecure lib (with_insecure_http ∷ opts) c h = inr (inl tt)

Some-append {ℓ} :
    {A : Type ℓ} (P : A → Type 0) (xs ys : List A) → Some P (xs ++ ys) → Some P xs ⊎ Some P ys
Some-append P [] ys found = inr found
Some-append P (x ∷ xs) ys (inl here) = inl (inl here)
Some-append P (x ∷ xs) ys (inr later) = elim (Some-append P xs ys later) [
  | inl one ↦ inl (inr one)
  | inr other ↦ inr other
]

apply_options-hosts :
    (lib : Strings) (opts : List Opt) (c : Options)
    → Some (IsHttp lib) (apply_options opts c).hosts
    → Some (IsHttp lib) c.hosts ⊎ Some (OptsIn lib) opts
unfolding apply_options
apply_options-hosts lib [] c found = inl found
apply_options-hosts lib (with_hosts entries ∷ opts) c found =
    elim (apply_options-hosts lib opts (record c { hosts = c.hosts ++ entries }) found) [
      | inl before ↦ elim (Some-append (IsHttp lib) c.hosts entries before) [
        | inl one ↦ inl one
        | inr here ↦ inr (inl here)
      ]
      | inr later ↦ inr (inr later)
    ]
apply_options-hosts lib (with_any_host ∷ opts) c found =
    elim (apply_options-hosts lib opts (record c { any_host = true }) found) [
      | inl before ↦ inl before
      | inr later ↦ inr (inr later)
    ]
apply_options-hosts lib (with_insecure_http ∷ opts) c found =
    elim (apply_options-hosts lib opts (record c { insecure = true }) found) [
      | inl before ↦ inl before
      | inr later ↦ inr (inr later)
    ]

from_insecure :
    (lib : Strings) (opts : List Opt)
    → (apply_options opts no_options).insecure ≡ true
    → Some (OptsIn lib) opts
from_insecure lib opts h = elim (apply_options-insecure lib opts no_options h) [
  | inl bad ↦ absurd cc
  | inr found ↦ found
]

from_hosts :
    (lib : Strings) (opts : List Opt)
    → Some (IsHttp lib) (apply_options opts no_options).hosts
    → Some (OptsIn lib) opts
from_hosts lib opts h = elim (apply_options-hosts lib opts no_options h) [
  | inl bad ↦ absurd bad
  | inr found ↦ found
]

-- A transport that a constructor made sends its credential over a scheme other than https only where
-- one of the constructor's options asked for that: WithInsecureHTTP, or a WithHosts that has an entry
-- written with the scheme http.
pub decide-inject_cleartext :
    (lib : Strings) (bare t : Transport) (has_token : Bool) (opts : List Opt) (req : Request)
    (scheme host : List ℕ)
    → build lib bare has_token opts ≡ built t
    → req.url ≡ some (scheme, host)
    → lib.lower scheme ≢ https
    → decide lib t req ≡ inject
    → Some (OptsIn lib) opts
decide-inject_cleartext lib bare t has_token opts req scheme host made at clear sent =
    let (same, parsed) = build-fields lib bare t has_token opts made in
    let raws = (apply_options opts no_options).hosts in
    let goes = subst (Admitted lib t) at ((decide-inject_iff lib t req).0 sent) in
    let P = Admits lib false (lib.lower scheme) host in
    elim goes [
      | inl (anywhere, inl safe) ↦ absurd (clear safe)
      | inl (anywhere, inr open_to) ↦ from_insecure lib opts (sym same ∙ open_to)
      | inr (listed, found) ↦ elim (Bool-cases t.insecure) [
        | inl open_to ↦ from_insecure lib opts (sym same ∙ open_to)
        | inr shut ↦
            let here =
              subst (λ i. Some (Admits lib i (lib.lower scheme) host) t.hosts) shut found in
            from_hosts lib opts (
              Some-map _ (IsHttp lib) raws
                (λ raw (e, fine, ok_here).
                  Admits-IsHttp lib (lib.lower scheme) host raw e clear fine ok_here)
                (parse_hosts-Some lib P raws t.hosts parsed here))
      ]
    ]
