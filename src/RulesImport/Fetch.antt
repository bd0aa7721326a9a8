-- ===== src/RulesImport/Fetch.antt =====
-- `_parse_remote_url`, `resolve_public_url`, `PinnedHTTPSConnection` and `fetch` of
-- rules-import.py. The log of resolutions and connections is added to the state of the network.
pub mod Resolve
pub mod Safety
pub mod Size
pub mod Tests
use gpn.Prelude.{
  ℕ, zero, suc, ◌+◌, Bool, true, false, not, ◌&&◌, ◌||◌, List, [], ◌∷◌, ◌++◌, Option, none, some,
  take, length, is_empty, ltb, leb, ◌==◌, if◌then◌else◌, ℤ, pos, negsuc,
}
use gpn.Text.{Text, codes, Unicode, lower}
use gpn.Text.Decimal.{decimal}
use gpn.Text.Equality.{eqb, is_in}
use gpn.Text.Number.{int_of}
use gpn.RulesImport.Network.{
  Bytes, Url, Response, Request, Attempt, answered, os_error, raised, Network, Error, invalid_url,
  not_https, bad_authority, bad_port, unresolvable, private_address, no_addresses, unreachable,
  missing_location, too_large, too_many_redirects, http_status, exception, Result, ok, err,
}

-- `MAX_DOWNLOAD_BYTES`
abbrev pub max_download_bytes : ℕ
max_download_bytes = 20971520

-- the truth value of an optional text
abbrev pub is_set : Option Text → Bool
is_set none = false
is_set (some t) = not (is_empty t)

abbrev pub text_of : Option Text → Text
text_of none = []
text_of (some t) = t

-- `parsed.port or 443`; the outer `none` is the exception
abbrev pub port_or : ℕ → Option (Option ℕ) → Option ℕ
port_or default none = none
port_or default (some none) = some default
port_or default (some (some zero)) = some default
port_or default (some (some (suc p))) = some (suc p)

-- One entry for an answered `getaddrinfo`, and one for a connection that is opened.
pub data Event : Type 0 where
  resolved : Text → ℕ → List Text → Event
  connected : Url → Request → Event

abbrev or_path : Text → Text
or_path [] = codes "/"
or_path (c ∷ s) = c ∷ s

abbrev with_query : Text → Text
with_query [] = []
with_query (c ∷ s) = b'?' ∷ c ∷ s

-- the host for the header: the port is written unless it is absent or 443
unfoldable pub host_header : Text → Option (Option ℕ) → Text
unfolding decimal
host_header host (some (some p)) = if p == 443 then host else host ++ b':' ∷ decimal p
host_header host _ = host

unfoldable pub request_for : Url → ℕ → Text → Request
unfolding host_header
request_for parsed port address = record {
  hostname = text_of parsed.hostname;
  address = address;
  port = port;
  path = or_path parsed.path ++ with_query parsed.query;
  host_header = host_header (text_of parsed.hostname) parsed.port;
}

-- What a response leads to: another URL, or the end.
pub data Next : Type 0 where
  redirect : Text → Next
  finished : Result Bytes → Next

abbrev pub with_target : Url → ℕ → Result (List Text) → Result (Url × ℕ × List Text)
with_target parsed port (ok addresses) = ok (parsed, port, addresses)
with_target parsed port (err e) = err e

abbrev pub is_redirect : ℕ → Bool
is_redirect status =
    status == 301 || status == 302 || status == 303 || status == 307 || status == 308

-- `response.read(limit)`
unfoldable pub read : ℕ → Response → Result Bytes
read limit response = elim response.body [ none ↦ err exception | some body ↦ ok (take limit body) ]

abbrev pub exceeds : ℤ → Bool
exceeds (pos k) = ltb max_download_bytes k
exceeds (negsuc k) = false

abbrev pub check_size : Result Bytes → Result Bytes
check_size (err e) = err e
check_size (ok body) = if ltb max_download_bytes (length body) then err too_large else ok body

abbrev pub smaller : ℕ → ℕ → ℕ
smaller a b = if ltb b a then b else a

abbrev pub unless_declared : Result Bool → Result Bytes → Result Bytes
unless_declared (err e) r = err e
unless_declared (ok true) r = err too_large
unless_declared (ok false) r = r

module _ ⦃u : Unicode⦄ where
  -- `declared and int(declared) > MAX_DOWNLOAD_BYTES`
  unfoldable pub declares_too_much : Option Text → Result Bool
  unfolding int_of
  declares_too_much none = ok false
  declares_too_much (some []) = ok false
  declares_too_much (some (c ∷ s)) = elim (int_of (c ∷ s)) [
    | none ↦ err exception
    | some size ↦ ok (exceeds size)
  ]

  -- from the test on `max_bytes` on
  unfoldable pub read_body : Option ℕ → Response → Result Bytes
  unfolding read declares_too_much
  read_body (some limit) response = read (smaller limit max_download_bytes) response
  read_body none response =
      unless_declared (declares_too_much response.content_length)
        (check_size (read (max_download_bytes + 1) response))

module _ (n : Network) where
  pub record State : Type 0 where
    pub world : n.World
    pub log : List Event

  abbrev pub record_event : State → n.World → Event → State
  record_event st w e = record { world = w; log = st.log ++ e ∷ [] }

module _ ⦃u : Unicode⦄ (n : Network) where
  unfoldable pub check_url_parts : Option Url → Result Url
  unfolding lower eqb
  check_url_parts none = err invalid_url
  check_url_parts (some parsed) =
      if not (eqb (lower parsed.scheme) (codes "https"))
      then err not_https
      else if not (is_set parsed.hostname) || is_set parsed.username || is_set parsed.password
      then err bad_authority
      else ok parsed

  unfoldable pub parse_remote_url : Text → Result Url
  unfolding check_url_parts
  parse_remote_url url = check_url_parts (n.urlsplit url)

  -- the loop over the answers of `getaddrinfo`
  unfoldable pub public_addresses : List Text → List Text → Result (List Text)
  unfolding is_in
  public_addresses [] [] = err no_addresses
  public_addresses [] (a ∷ rest) = ok (a ∷ rest)
  public_addresses (address ∷ infos) addresses =
      let kept =
        public_addresses infos
          (if is_in address addresses then addresses else addresses ++ address ∷ []) in
      elim (n.is_global address) [
        | none ↦ err exception
        | some false ↦ err private_address
        | some true ↦ kept
      ]

  -- behind `getaddrinfo`
  unfoldable pub answered_with :
      Url → ℕ → Option (List Text) × n.World → State n → Result (Url × ℕ × List Text) × State n
  unfolding public_addresses
  answered_with parsed port (none, w) st = (err unresolvable, record st { world = w })
  answered_with parsed port (some infos, w) st = (
    with_target parsed port (public_addresses infos []),
    record_event n st w (resolved (text_of parsed.hostname) port infos),
  )

  unfoldable pub resolve_parsed : Result Url → State n → Result (Url × ℕ × List Text) × State n
  unfolding answered_with
  resolve_parsed (err e) st = (err e, st)
  resolve_parsed (ok parsed) st = elim (port_or 443 parsed.port) [
    | none ↦ (err bad_port, st)
    | some port ↦
        answered_with parsed port (n.getaddrinfo st.world (text_of parsed.hostname) port) st
  ]

  -- with the port that the caller computes again from the same URL
  unfoldable pub resolve_public_url : Text → State n → Result (Url × ℕ × List Text) × State n
  unfolding resolve_parsed parse_remote_url
  resolve_public_url url st = resolve_parsed (parse_remote_url url) st

  -- the loop over `addresses`
  unfoldable pub connect_any : Url → ℕ → List Text → State n → Result Response × State n
  unfolding request_for
  connect_any parsed port [] st = (err unreachable, st)
  connect_any parsed port (address ∷ rest) st =
      let (attempt, w) = n.request st.world (request_for parsed port address) in
      let st' = record_event n st w (connected parsed (request_for parsed port address)) in
      elim attempt [
        | answered response ↦ (ok response, st')
        | os_error ↦ connect_any parsed port rest st'
        | raised ↦ (err exception, st')
      ]

  unfoldable pub redirect_to : Text → Option Text → Next
  redirect_to url none = finished (err missing_location)
  redirect_to url (some []) = finished (err missing_location)
  redirect_to url (some (c ∷ s)) = elim (n.urljoin url (c ∷ s)) [
    | none ↦ finished (err exception)
    | some target ↦ redirect target
  ]

  unfoldable pub handle_response : Text → Option ℕ → Response → Next
  unfolding redirect_to read_body
  handle_response url max_bytes response =
      if is_redirect response.status
      then redirect_to url response.location
      else if not (leb 200 response.status && ltb response.status 300)
      then finished (err (http_status response.status))
      else finished (read_body max_bytes response)

  unfoldable pub connect_resolved :
      Result (Url × ℕ × List Text) × State n → Result Response × State n
  unfolding connect_any
  connect_resolved (err e, st) = (err e, st)
  connect_resolved (ok (parsed, port, addresses), st) = connect_any parsed port addresses st

  -- one round up to the response
  unfoldable pub fetch_once : Text → State n → Result Response × State n
  unfolding resolve_public_url connect_resolved
  fetch_once url st = connect_resolved (resolve_public_url url st)

  abbrev pub follow :
      (Text → State n → Result Bytes × State n) → Next → State n → Result Bytes × State n
  follow again (redirect target) st = again target st
  follow again (finished result) st = (result, st)

  unfoldable pub finish_round :
      (Text → State n → Result Bytes × State n)
      → Text
      → Option ℕ
      → Result Response × State n
      → Result Bytes × State n
  unfolding handle_response
  finish_round again url max_bytes (err e, st) = (err e, st)
  finish_round again url max_bytes (ok response, st) =
      follow again (handle_response url max_bytes response) st

  -- `for _redirect in range(rounds)`
  unfoldable pub fetch_rounds : Option ℕ → ℕ → Text → State n → Result Bytes × State n
  unfolding fetch_once finish_round
  fetch_rounds max_bytes zero url st = (err too_many_redirects, st)
  fetch_rounds max_bytes (suc rounds) url st =
      finish_round (fetch_rounds max_bytes rounds) url max_bytes (fetch_once url st)

  unfoldable pub fetch : Text → Option ℕ → State n → Result Bytes × State n
  unfolding fetch_rounds
  fetch url max_bytes = fetch_rounds max_bytes 6 url
