-- ===== src/Tests/Transports.antt =====
-- Runs of the HTTP transport at fixed inputs, with ASCII strings.
use secmem.Prelude.{
  Some, ℕ, ◌+◌, true, ◌&&◌, if◌then◌else◌, leb, Option, none, some, List, [], ◌∷◌, map, codes,
  equal_bytes, ◌≡◌, ◌≢◌, ◌↔◌, refl,
}
use secmem.HttpAuth.{
  Strings, HostEntry, Transport, Request, Response, inject, refuse, search_hosts, decide, https,
  Failure,
}
use secmem.HttpAuth.Config.{
  with_hosts, built, Opt, apply_options, build, bare, parse_hosts, parse_host_entry, parse_host,
  cut_scheme, trim_slash, contains_any, contains,
}
use secmem.HttpAuth.Decide.{Admitted, decide-inject_iff}
use secmem.HttpAuth.Cleartext.{OptsIn, decide-inject_cleartext}

abbrev lower_byte : ℕ → ℕ
lower_byte c = if leb 65 c && leb c 90 then c + 32 else c

abbrev ascii : Strings
ascii = record {
  lower = map lower_byte;
  equal_fold = λ a b. equal_bytes (map lower_byte a) (map lower_byte b);
  has_space = λ s. contains_any s (32 ∷ 9 ∷ []);
  canonical = λ s. s;
}

-- WithHosts("HTTP://local:80", "api.example.com").
abbrev listed : List Opt
listed = with_hosts (codes "HTTP://local:80" ∷ codes "api.example.com/" ∷ []) ∷ []

abbrev entries : List HostEntry
entries =
    record { scheme = codes "http"; host = codes "local:80" }
    ∷ record { scheme = []; host = codes "api.example.com" }
    ∷ []

abbrev bearer : Transport
bearer = record (bare ascii) { prefix = codes "Bearer "; hosts = entries }

made : build ascii (record (bare ascii) { prefix = codes "Bearer " }) true listed ≡ built bearer
unfolding build apply_options parse_hosts parse_host_entry parse_host cut_scheme trim_slash
    contains_any contains
made = refl

abbrev to_local : Request
to_local = record { url = some (codes "http", codes "LOCAL:80"); header = [] }

abbrev to_api : Request
to_api = record { url = some (codes "http", codes "api.example.com"); header = [] }

sent_locally : decide ascii bearer to_local ≡ inject
unfolding decide search_hosts
sent_locally = refl

kept_from_api : decide ascii bearer to_api ≡ refuse
unfolding decide search_hosts
kept_from_api = refl

decide-inject_iff_example :
    (decide ascii bearer to_local ≡ inject) ↔ Admitted ascii bearer to_local.url
decide-inject_iff_example = decide-inject_iff ascii bearer to_local

clear : codes "http" ≢ https
clear e = cc

decide-inject_cleartext_example : Some (OptsIn ascii) listed
decide-inject_cleartext_example =
    decide-inject_cleartext ascii (record (bare ascii) { prefix = codes "Bearer " }) bearer true
      listed to_local (codes "http") (codes "LOCAL:80") made refl clear sent_locally

abbrev answering : Request → Option Response × Option Failure
answering req = (some (record { payload = []; request = req }), none)
