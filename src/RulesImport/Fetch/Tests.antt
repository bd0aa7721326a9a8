-- ===== src/RulesImport/Fetch/Tests.antt =====
-- A network with one redirect, and what `fetch` does on it.
use gpn.Prelude.{zero, suc, refl, ℕ, Option, length, some, [], none, true, ◌≤◌, suc, ◌∷◌, ◌≡◌, ◌+◌}
use gpn.Text.{Text, ascii}
use gpn.RulesImport.Network.{Attempt, Network}
use gpn.RulesImport.Fetch.{State, fetch, Url, answered, codes, ok}
use gpn.RulesImport.Fetch.Resolve.{Pinned, resolutions}
use gpn.RulesImport.Fetch.Size.{limit_of, fetch-IsWithin}
use gpn.RulesImport.Fetch.Safety.{fetch-Pinned}

-- every URL is one of the host "a.com", with a path that is the URL
abbrev split_example : Text → Option Url
split_example url = some (record {
  scheme = codes "https";
  hostname = some (codes "a.com");
  username = none;
  password = none;
  port = some none;
  path = url;
  query = [];
})

-- the first request is redirected, the others are answered
abbrev answer_example : ℕ → Attempt
answer_example zero = answered (record {
  status = 302;
  location = some (codes "/list");
  content_length = none;
  body = some [];
})
answer_example (suc k) = answered (record {
  status = 200;
  location = none;
  content_length = some (codes "2");
  body = some (codes "ok");
})

abbrev pub one_redirect : Network
one_redirect = record {
  World = ℕ;
  urlsplit = split_example;
  urljoin = λ base location. some location;
  is_global = λ a. some true;
  getaddrinfo = λ w host port. (some (codes "1.1.1.1" ∷ []), w);
  request = λ w req. (answer_example w, suc w);
  decode = λ b. b;
}

abbrev pub before_it : State one_redirect
before_it = record { world = 0; log = [] }

fetch-one_redirect : (fetch ⦃u = ascii⦄ one_redirect (codes "/") none before_it).0 ≡ ok (codes "ok")
unfolding fetch
fetch-one_redirect = refl

fetch-Pinned_example :
    Pinned ⦃u = ascii⦄ one_redirect none
      (fetch ⦃u = ascii⦄ one_redirect (codes "/") none before_it).1.log
    × (resolutions (fetch ⦃u = ascii⦄ one_redirect (codes "/") none before_it).1.log ≤ 0 + 6)
fetch-Pinned_example = fetch-Pinned ⦃u = ascii⦄ one_redirect (codes "/") none before_it tt

fetch-IsWithin_example : length (codes "ok") ≤ limit_of none
fetch-IsWithin_example =
    fetch-IsWithin ⦃u = ascii⦄ one_redirect (codes "/") none before_it (codes "ok")
      fetch-one_redirect
