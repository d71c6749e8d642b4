-- ===== src/HttpAuth/Trip.antt =====
-- httpauth/transport.go: what RoundTrip hands to the base transport.
use secmem.Prelude.{ℕ, true, false, Option, none, some, List, length, take, ◌<◌, ◌≡◌, ◌≢◌, ◌⊎◌}
use secmem.Region.{Mapping}
use secmem.Buffer.{Buffer}
use secmem.Buffer.Access.{data_of}
use secmem.HttpAuth.{Strings, Transport, Request, Response, value_of, set_header, Outcome}
use secmem.HttpAuth.Decide.{Admitted, Unnamed}

-- Nothing goes out: the body is closed and the caller gets an error.
abbrev pub IsRefused : Outcome → Type 0
IsRefused o = (o.handed ≡ none) × (o.closed ≡ true) × (o.response ≡ none) × (o.error ≢ none)

-- The caller's request with the credential as one header.
abbrev pub credited : Strings → Transport → Request → (token : List ℕ) → Request
credited lib t req token = record req {
  header = set_header (lib.canonical t.header) (value_of t token) req.header;
}

abbrev pub Answers : Request → Option Response → Type 0
Answers req none = Unit
Answers req (some r) = r.request ≡ req

-- The token is what the buffer holds, all of the length that Len gave.
abbrev pub IsToken : (n : ℕ) → Option (Buffer × Mapping) → List ℕ → Type 0
IsToken n none token = ⊥
IsToken n (some (b, m)) token = (token ≡ take n (data_of b m)) × (length token ≡ n) × (0 < n)

abbrev pub IsCredited :
    Strings → Transport → ℕ → Option (Buffer × Mapping) → Request → Outcome → Type 0
IsCredited lib t n buf req o =
    (token : List ℕ) × (Admitted lib t req.url)
    × (IsToken n buf token)
    × (o.handed ≡ some (credited lib t req token))
    × (o.closed ≡ false)
    × (Answers req o.response)

abbrev pub IsPassed : Strings → Transport → Request → Outcome → Type 0
IsPassed lib t req o = Unnamed lib t req.url × (o.handed ≡ some req) × (o.closed ≡ false)

abbrev pub IsHandled :
    Strings → Transport → ℕ → Option (Buffer × Mapping) → Request → Outcome → Type 0
IsHandled lib t n buf req o =
    (IsRefused o × ((buf ≡ none) ⊎ ¬ Unnamed lib t req.url))
    ⊎ (IsPassed lib t req o ⊎ IsCredited lib t n buf req o)
