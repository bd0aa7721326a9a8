-- ===== src/RulesImport/Network.antt =====
-- What rules-import.py uses of Python's network library: `urlsplit`, `urljoin`, `getaddrinfo`,
-- `ipaddress` and one HTTPS request. The network is a parameter; it may answer anything, and
-- differently each time that it is asked.
use gpn.Prelude.{ℕ, List, Bool, Option}
use gpn.Text.{Text}

abbrev pub Bytes : Type 0
Bytes = List ℕ

-- the result of `urlsplit`; `port` is `none` where reading it raises a `ValueError`
pub record Url : Type 0 where
  pub scheme : Text
  pub hostname : Option Text
  pub username : Option Text
  pub password : Option Text
  pub port : Option (Option ℕ)
  pub path : Text
  pub query : Text

-- `body` is `none` where reading it raises.
pub record Response : Type 0 where
  pub status : ℕ
  pub location : Option Text
  pub content_length : Option Text
  pub body : Option Bytes

-- the arguments of `PinnedHTTPSConnection` and of its `request`
pub record Request : Type 0 where
  pub hostname : Text
  pub address : Text
  pub port : ℕ
  pub path : Text
  pub host_header : Text

pub data Attempt : Type 0 where
  answered : Response → Attempt
  os_error raised : Attempt

pub record Network : Type 1 where
  pub World : Type 0
  pub urlsplit : Text → Option Url
  pub urljoin : Text → Text → Option Text
  pub is_global : Text → Option Bool
  pub getaddrinfo : World → Text → ℕ → Option (List Text) × World
  pub request : World → Request → Attempt × World
  pub decode : Bytes → Text

pub data Error : Type 0 where
  invalid_url not_https bad_authority bad_port unresolvable private_address : Error
  no_addresses unreachable missing_location too_large too_many_redirects : Error
  http_status : ℕ → Error
  unsupported_srs exception : Error

pub data Result {ℓ} (A : Type ℓ) : Type ℓ where
  ok : A → Result A
  err : Error → Result A
