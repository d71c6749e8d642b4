-- ===== src/HttpAuth/Config.antt =====
-- httpauth/transport.go: the options, the constructors and the entries of WithHosts.
use secmem.Prelude.{
  ℕ, Bool, true, false, not, ◌&&◌, ◌||◌, if◌then◌else◌, ltb, leb, ◌==◌, Option, none, some, List,
  [], ◌∷◌, ◌++◌, length, codes, equal_bytes, strip_prefix,
}
use secmem.HttpAuth.{Strings, HostEntry, Transport, https}

pub data ConfigError : Type 0 where
  no_token no_hosts invalid_config basic_username : ConfigError

pub data Built {ℓ} (A : Type ℓ) : Type ℓ where
  built : A → Built A
  rejected : ConfigError → Built A

pub data Opt : Type 0 where
  with_hosts : List (List ℕ) → Opt
  with_any_host with_insecure_http : Opt

pub record Options : Type 0 where
  pub hosts : List (List ℕ)
  pub any_host : Bool
  pub insecure : Bool

unfoldable pub apply_options : List Opt → Options → Options
apply_options [] c = c
apply_options (with_hosts entries ∷ opts) c =
    apply_options opts (record c { hosts = c.hosts ++ entries })
apply_options (with_any_host ∷ opts) c = apply_options opts (record c { any_host = true })
apply_options (with_insecure_http ∷ opts) c = apply_options opts (record c { insecure = true })

abbrev pub no_options : Options
no_options = record { hosts = []; any_host = false; insecure = false }

abbrev pub http : List ℕ
http = codes "http"

-- strings.Index with "://": what is before it, and what is after it.
unfoldable pub cut_scheme : List ℕ → Option (List ℕ × List ℕ)
cut_scheme [] = none
cut_scheme (x ∷ xs) =
    let rest = cut_scheme xs in
    elim (strip_prefix (codes "://") (x ∷ xs)) [
      | some after ↦ some ([], after)
      | none ↦ elim rest [ none ↦ none | some (before, after) ↦ some (x ∷ before, after) ]
    ]

-- strings.TrimSuffix with "/", strings.ContainsAny and strings.IndexByte.
unfoldable pub trim_slash : List ℕ → List ℕ
trim_slash [] = []
trim_slash (x ∷ []) = if x == b'/' then [] else x ∷ []
trim_slash (x ∷ y ∷ xs) = x ∷ trim_slash (y ∷ xs)

unfoldable pub contains : List ℕ → ℕ → Bool
contains [] c = false
contains (x ∷ xs) c = let rest = contains xs c in (x == c) || rest

unfoldable pub contains_any : (s chars : List ℕ) → Bool
contains_any [] chars = false
contains_any (x ∷ s) chars = let rest = contains_any s chars in contains chars x || rest

unfoldable pub field_byte : ℕ → Bool
field_byte c =
    (leb b'a' c && leb c b'z')
    || (leb b'A' c && leb c b'Z')
    || (leb b'0' c && leb c b'9')
    || contains (codes "!#$%&'*+-.^_`|~") c

unfoldable pub all_field_bytes : List ℕ → Bool
all_field_bytes [] = true
all_field_bytes (c ∷ name) = let rest = all_field_bytes name in field_byte c && rest

unfoldable pub valid_field_name : List ℕ → Bool
valid_field_name name = if length name == 0 then false else all_field_bytes name

module _ (lib : Strings) where
  -- The end of parseHostEntry.
  unfoldable pub parse_host : (scheme rest : List ℕ) → Built HostEntry
  parse_host scheme rest =
      let host = trim_slash rest in
      if length host == 0
      then rejected invalid_config
      else if contains_any host (codes "/?#@") || lib.has_space host
      then rejected invalid_config
      else built (record { scheme = scheme; host = host })

  unfoldable pub parse_host_entry : List ℕ → Built HostEntry
  parse_host_entry entry = elim (cut_scheme entry) [
    | none ↦ parse_host [] entry
    | some (before, after) ↦
        let scheme = lib.lower before in
        if not (equal_bytes scheme http) && not (equal_bytes scheme https)
        then rejected invalid_config
        else parse_host scheme after
  ]

  unfoldable pub parse_hosts : List (List ℕ) → Built (List HostEntry)
  parse_hosts [] = built []
  parse_hosts (raw ∷ raws) =
      let rest = parse_hosts raws in
      elim (parse_host_entry raw) [
        | rejected e ↦ rejected e
        | built h ↦ elim rest [ rejected e ↦ rejected e | built hs ↦ built (h ∷ hs) ]
      ]

  -- build of a transport that has its header or its user; whether there is a token is all of it here.
  unfoldable pub build : Transport → (has_token : Bool) → List Opt → Built Transport
  build t has_token opts =
      let c = apply_options opts no_options in
      if not has_token
      then rejected no_token
      else if ltb 0 (length c.hosts) && c.any_host
      then rejected invalid_config
      else if (length c.hosts == 0) && not c.any_host
      then rejected no_hosts
      else elim (parse_hosts c.hosts) [
        | rejected e ↦ rejected e
        | built hosts ↦
            built (record t { hosts = hosts; any_host = c.any_host; insecure = c.insecure })
      ]

  abbrev pub default_header : List ℕ
  default_header = codes "Authorization"

  abbrev pub bare : Transport
  bare = record {
    header = default_header;
    prefix = [];
    hosts = [];
    any_host = false;
    insecure = false;
    basic = false;
    basic_user = [];
  }

  unfoldable pub new_header :
      (header prefix : List ℕ) → (has_token : Bool) → List Opt → Built Transport
  new_header header prefix has_token opts =
      let name = if length header == 0 then default_header else header in
      if not (valid_field_name name)
      then rejected invalid_config
      else if contains_any prefix (13 ∷ 10 ∷ 0 ∷ [])
      then rejected invalid_config
      else build (record bare { header = name; prefix = prefix }) has_token opts

  unfoldable pub new_bearer : (has_token : Bool) → List Opt → Built Transport
  new_bearer = new_header default_header (codes "Bearer ")

  unfoldable pub new_basic : (username : List ℕ) → (has_token : Bool) → List Opt → Built Transport
  new_basic username has_token opts =
      if contains username b':'
      then rejected basic_username
      else build (record bare { basic = true; basic_user = username }) has_token opts
