-- ===== src/HttpAuth/Decide.antt =====
-- httpauth/transport.go: to which requests the credential goes.
use secmem.Prelude.{
  Some, ℕ, Bool, true, false, ◌==◌, Option, none, some, List, [], ◌∷◌, length, equal_bytes,
  equal_bytes→eq, equal_bytes_self, ◌≡◌, ◌≢◌, ◌↔◌, ◌⊎◌, refl, sym, ap, ◌∙◌, arith,
}
use secmem.HttpAuth.{
  Strings, HostEntry, Transport, Request, inject, forward, https, search_hosts, decide,
}

-- An entry that names the host, and the scheme: an entry without one stands for https, or for both
-- under WithInsecureHTTP.
abbrev pub Admits : Strings → (insecure : Bool) → (scheme host : List ℕ) → HostEntry → Type 0
Admits lib insecure scheme host e =
    (lib.equal_fold host e.host ≡ true)
    × (((e.scheme ≡ []) × ((scheme ≡ https) ⊎ (insecure ≡ true)))
        ⊎ ((e.scheme ≢ []) × (e.scheme ≡ scheme)))

-- Whether the credential goes to a URL.
abbrev pub Admitted : Strings → Transport → Option (List ℕ × List ℕ) → Type 0
Admitted lib t none = (t.any_host ≡ true) × (t.insecure ≡ true)
Admitted lib t (some (s, host)) =
    ((t.any_host ≡ true) × ((lib.lower s ≡ https) ⊎ (t.insecure ≡ true)))
    ⊎ ((t.any_host ≡ false) × Some (Admits lib t.insecure (lib.lower s) host) t.hosts)

empty_iff : (s : List ℕ) → ((length s == 0) ≡ true) ↔ (s ≡ [])
empty_iff [] = (λ h. refl, λ h. refl)
empty_iff (x ∷ s) = (λ h. absurd (ground (arith, h)), λ h. absurd cc)

bytes_iff : (a b : List ℕ) → (equal_bytes a b ≡ true) ↔ (a ≡ b)
bytes_iff a b = (equal_bytes→eq a b, λ e. ap (equal_bytes a) (sym e) ∙ equal_bytes_self a)

search_hosts_iff :
    (lib : Strings) (insecure : Bool) (scheme host : List ℕ) (es : List HostEntry) (matched : Bool)
    → (search_hosts lib (equal_bytes scheme https) insecure scheme host es matched ≡ inject)
      ↔ Some (Admits lib insecure scheme host) es
unfolding search_hosts
search_hosts_iff lib insecure scheme host [] matched = ground arith
search_hosts_iff lib insecure scheme host (e ∷ es) matched = ground (
  arith,
  search_hosts_iff lib insecure scheme host es matched,
  search_hosts_iff lib insecure scheme host es true,
  empty_iff e.scheme,
  bytes_iff e.scheme scheme,
  bytes_iff scheme https,
)

decide_by_url :
    (lib : Strings) (t : Transport) (req : Request) (url : Option (List ℕ × List ℕ))
    → req.url ≡ url
    → (decide lib t req ≡ inject) ↔ Admitted lib t url
unfolding decide
decide_by_url lib t req none e = ground (arith, e)
decide_by_url lib t req (some (s, host)) e = ground (
  arith,
  e,
  search_hosts_iff lib t.insecure (lib.lower s) host t.hosts false,
  bytes_iff (lib.lower s) https,
)

-- The credential goes exactly to the requests that are admitted: with WithAnyHost to every https
-- request, and to every other under WithInsecureHTTP; with WithHosts to a request that an entry names,
-- over the entry's scheme, which is https if it has none, or either under WithInsecureHTTP.
pub decide-inject_iff :
    (lib : Strings) (t : Transport) (req : Request)
    → (decide lib t req ≡ inject) ↔ Admitted lib t req.url
decide-inject_iff lib t req = decide_by_url lib t req req.url refl

-- No entry names the host.
abbrev pub Nameless : Strings → (host : List ℕ) → List HostEntry → Type 0
Nameless lib host [] = Unit
Nameless lib host (e ∷ es) = (lib.equal_fold host e.host ≡ false) × Nameless lib host es

-- A transport without WithAnyHost, and no entry that names the URL's host; a request without a URL has
-- none.
abbrev pub Unnamed : Strings → Transport → Option (List ℕ × List ℕ) → Type 0
Unnamed lib t none = t.any_host ≡ false
Unnamed lib t (some (s, host)) = (t.any_host ≡ false) × Nameless lib host t.hosts

search_hosts-forward :
    (lib : Strings) (secure insecure : Bool) (scheme host : List ℕ) (es : List HostEntry)
    (matched : Bool)
    → search_hosts lib secure insecure scheme host es matched ≡ forward
    → (matched ≡ false) × Nameless lib host es
unfolding search_hosts
search_hosts-forward lib secure insecure scheme host [] matched h = (ground (arith, h), tt)
search_hosts-forward lib secure insecure scheme host (e ∷ es) matched h =
    let skipped = search_hosts-forward lib secure insecure scheme host es matched in
    let later = search_hosts-forward lib secure insecure scheme host es true in
    let other : lib.equal_fold host e.host ≡ false = ground (arith, h, later) in
    let rest = skipped (ground (arith, h, other)) in (rest.0, (other, rest.1))

decide_by_url-forward :
    (lib : Strings) (t : Transport) (req : Request) (url : Option (List ℕ × List ℕ))
    → req.url ≡ url
    → decide lib t req ≡ forward
    → Unnamed lib t url
unfolding decide
decide_by_url-forward lib t req none e h = ground (arith, e, h)
decide_by_url-forward lib t req (some (s, host)) e h =
    let listed : t.any_host ≡ false = ground (arith, e, h) in
    let scheme = lib.lower s in
    let found =
      search_hosts-forward lib (equal_bytes scheme https) t.insecure scheme host t.hosts false in
    (listed, (found (ground (arith, e, h, listed))).1)

search_hosts-Nameless :
    (lib : Strings) (secure insecure : Bool) (scheme host : List ℕ) (es : List HostEntry)
    → Nameless lib host es
    → search_hosts lib secure insecure scheme host es false ≡ forward
unfolding search_hosts
search_hosts-Nameless lib secure insecure scheme host [] none_named = refl
search_hosts-Nameless lib secure insecure scheme host (e ∷ es) (other, rest) =
    ground (arith, other, search_hosts-Nameless lib secure insecure scheme host es rest)

Unnamed-decide_by_url :
    (lib : Strings) (t : Transport) (req : Request) (url : Option (List ℕ × List ℕ))
    → req.url ≡ url
    → Unnamed lib t url
    → decide lib t req ≡ forward
unfolding decide
Unnamed-decide_by_url lib t req none e listed = ground (arith, e, listed)
Unnamed-decide_by_url lib t req (some (s, host)) e (listed, none_named) =
    let scheme = lib.lower s in
    ground (
      arith,
      e,
      listed,
      search_hosts-Nameless lib (equal_bytes scheme https) t.insecure scheme host t.hosts
          none_named,
    )

pub decide-forward_iff :
    (lib : Strings) (t : Transport) (req : Request)
    → (decide lib t req ≡ forward) ↔ Unnamed lib t req.url
decide-forward_iff lib t req =
    (decide_by_url-forward lib t req req.url refl, Unnamed-decide_by_url lib t req req.url refl)
