-- ===== src/HttpAuth.antt =====
-- httpauth/transport.go: the transport that puts a credential on a request, over the functions of package
-- strings that read Unicode, which are a parameter.
pub mod Config
pub mod Decide
pub mod Trip
pub mod Cleartext
use secmem.Prelude.{
  ℕ, Bool, true, false, not, ◌||◌, if◌then◌else◌, ◌==◌, Option, none, some, List, [], ◌∷◌, ◌++◌,
  length, codes, equal_bytes,
}
use secmem.Errors.{Err, is, destroyed, sealed}
use secmem.Region.{Mapping}
use secmem.Buffer.{Buffer, Calls}
use secmem.Buffer.Access.{copy_out}
use secmem.Pem.{base64}

-- strings.ToLower, strings.EqualFold, strings.ContainsFunc with unicode.IsSpace, and the canonical form
-- of a header's name in package textproto.
pub record Strings : Type 0 where
  pub lower : List ℕ → List ℕ
  pub equal_fold : List ℕ → List ℕ → Bool
  pub has_space : List ℕ → Bool
  pub canonical : List ℕ → List ℕ

-- hostEntry; no scheme is the empty string.
pub record HostEntry : Type 0 where
  pub scheme : List ℕ
  pub host : List ℕ

pub record Transport : Type 0 where
  pub header : List ℕ
  pub prefix : List ℕ
  pub hosts : List HostEntry
  pub any_host : Bool
  pub insecure : Bool
  pub basic : Bool
  pub basic_user : List ℕ

-- The URL's scheme and host, and the header: each name with its value.
pub record Request : Type 0 where
  pub url : Option (List ℕ × List ℕ)
  pub header : List (List ℕ × List ℕ)

pub record Response : Type 0 where
  pub payload : List ℕ
  pub request : Request

pub data Decision : Type 0 where
  inject forward refuse : Decision

-- An error of RoundTrip: the base transport's, or one of its own.
pub data Failure : Type 0 where
  no_token insecure_scheme empty_token length_changed : Failure
  reading_token : Err → Failure
  base_error : ℕ → Failure

abbrev pub https : List ℕ
https = codes "https"

module _ (lib : Strings) where
  -- The loop of decide over the entries.
  unfoldable pub search_hosts :
      (secure insecure : Bool)
      → (scheme host : List ℕ) → List HostEntry
      → (matched : Bool) → Decision
  search_hosts secure insecure scheme host [] matched = if matched then refuse else forward
  search_hosts secure insecure scheme host (e ∷ es) matched =
      let skipped = search_hosts secure insecure scheme host es matched in
      let later = search_hosts secure insecure scheme host es true in
      if not (lib.equal_fold host e.host)
      then skipped
      else if length e.scheme == 0
      then (if secure || insecure then inject else later)
      else if equal_bytes e.scheme scheme
      then inject
      else later

  abbrev pub scheme_of : Option (List ℕ × List ℕ) → List ℕ
  scheme_of none = []
  scheme_of (some (scheme, host)) = lib.lower scheme

  unfoldable pub decide : Transport → Request → Decision
  decide t req =
      let scheme = scheme_of req.url in
      let secure = equal_bytes scheme https in
      if t.any_host then (if secure || t.insecure then inject else refuse) else elim req.url [
        | none ↦ forward
        | some (s, host) ↦ search_hosts secure t.insecure scheme host t.hosts false
      ]

-- A read of the token: the bytes or the error, with the buffer and its memory afterwards.
pub data Read : Type 0 where
  got : List ℕ → Read
  failed : Failure → Read

-- copyToken. `n` is what Len returned before, under a lock of its own.
unfoldable pub copy_token : Calls → (n : ℕ) → Buffer → Mapping → Buffer × Mapping × Read
copy_token c n b m =
    let (b', m', bytes, err) = copy_out c n 0 b m in
    if n == 0
    then (if is err destroyed || is err sealed
        then (b', m', failed (reading_token err))
        else (b', m', failed empty_token))
    else elim err [
      | e ∷ es ↦ (b', m', failed (reading_token (e ∷ es)))
      | [] ↦ if length bytes == n then (b', m', got bytes) else (b', m', failed length_changed)
    ]

abbrev pub map_read : (List ℕ → List ℕ) → Read → Read
map_read f (got bytes) = got (f bytes)
map_read f (failed e) = failed e

-- headerValue and basicValue.
unfoldable pub header_value : Transport → List ℕ → List ℕ
header_value t token = t.prefix ++ token

unfoldable pub basic_value : Transport → List ℕ → List ℕ
basic_value t token = codes "Basic " ++ base64 (t.basic_user ++ (58 ∷ []) ++ token)

unfoldable pub value_of : Transport → List ℕ → List ℕ
value_of t token = if t.basic then basic_value t token else header_value t token

-- Header.Set: every value of that name is replaced.
unfoldable pub remove : (name : List ℕ) → List (List ℕ × List ℕ) → List (List ℕ × List ℕ)
remove name [] = []
remove name ((k, v) ∷ header) =
    let rest = remove name header in if equal_bytes k name then rest else (k, v) ∷ rest

unfoldable pub set_header : (name value : List ℕ) → List (List ℕ × List ℕ) → List (List ℕ × List ℕ)
set_header name value header = (name, value) ∷ remove name header

-- What RoundTrip does: the request that the base transport is given, if any; whether the body of the
-- caller's request is closed here; the response and the error.
pub record Outcome : Type 0 where
  pub handed : Option Request
  pub closed : Bool
  pub response : Option Response
  pub error : Option Failure

-- The base transport, of a request.
abbrev pub Base : Type 0
Base = Request → Option Response × Option Failure

abbrev pub refused : Failure → Outcome
refused e = record { handed = none; closed = true; response = none; error = some e }

unfoldable pub pass_on : Base → Request → Outcome
pass_on base req =
    let (response, error) = base req in
    record { handed = some req; closed = false; response = response; error = error }

-- `resp.Request = req`.
abbrev pub answer_to : Request → Option Response → Option Response
answer_to req none = none
answer_to req (some r) = some (record r { request = req })

unfoldable pub send : Base → Request → Request → Outcome
send base req clone =
    let (response, error) = base clone in
    record { handed = some clone; closed = false; response = answer_to req response; error = error }

-- The end of RoundTrip, on the value that was read.
unfoldable pub with_value : Strings → Transport → Base → Request → Read → Outcome
with_value lib t base req (failed e) = refused e
with_value lib t base req (got token) =
    send base req
      (record req { header = set_header (lib.canonical t.header) (value_of t token) req.header })

-- RoundTrip of a transport and a request that are not nil; no token is a transport that no constructor
-- made.
unfoldable pub round_trip :
    Strings
    → Calls
    → Transport
    → Base
    → (n : ℕ) → Option (Buffer × Mapping)
    → Request
    → Option (Buffer × Mapping) × Outcome
round_trip lib c t base n none req = (none, refused no_token)
round_trip lib c t base n (some (b, m)) req = elim (decide lib t req) [
  | forward ↦ (some (b, m), pass_on base req)
  | refuse ↦ (some (b, m), refused insecure_scheme)
  | inject ↦
      let (b', m', value) = copy_token c n b m in (some (b', m'), with_value lib t base req value)
]
