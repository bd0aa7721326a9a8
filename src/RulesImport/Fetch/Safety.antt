-- ===== src/RulesImport/Fetch/Safety.antt =====
-- Where `fetch` connects to, and how often it resolves a name.
use gpn.Prelude.{ℕ, zero, suc, ◌+◌, ◌≤◌, List, [], ◌∷◌, Option, none, ◌≡◌, refl, ◌∙◌, arith}
use gpn.Text.{Text, Unicode}
use gpn.RulesImport.Network.{
  Bytes, Url, Response, Request, answered, os_error, raised, Network, Result, ok, err, exception,
}
use gpn.RulesImport.Fetch.Resolve.{
  last_answer-append, resolutions, resolutions-append, IsPinned, Pinned, Pinned-append, Ready,
  IsResolved, resolve_public_url-IsResolved,
}
use gpn.RulesImport.Fetch.{
  text_of, connected, request_for, State, record_event, connect_any, Next, redirect, finished,
  handle_response, connect_resolved, fetch_once, follow, finish_round, fetch_rounds, fetch,
}

module _ ⦃u : Unicode⦄ (n : Network) where
  -- What a round leads to.
  record IsSafe (k : ℕ) (st st' : State n) : Type 0 where
    pinned : Pinned n none st'.log
    few : resolutions st'.log ≤ resolutions st.log + k

  connected-Ready :
      (parsed : Url) (req : Request) (rest : List Text) (st : State n) (w : n.World)
      → req.hostname ≡ text_of parsed.hostname
      → Pinned n none st.log
      → Ready n parsed (req.address ∷ rest) st
      → Pinned n none (record_event n st w (connected parsed req)).log
        × Ready n parsed rest (record_event n st w (connected parsed req))
        × (resolutions (record_event n st w (connected parsed req)).log ≡ resolutions st.log)
  connected-Ready parsed req rest st w name h r =
      let e = connected parsed req ∷ [] in
      let pin : IsPinned n (text_of parsed.hostname) r.infos parsed req = record {
        url = r.url;
        name = name;
        url_name = refl;
        answer = r.kept.0.0;
        global = r.kept.0.1;
      } in
      (
        Pinned-append n none st.log e h (rw r.last (pin, tt)),
        record {
          infos = r.infos;
          url = r.url;
          kept = r.kept.1;
          last = last_answer-append none st.log e ∙ r.last;
        },
        omega (arith, resolutions-append st.log e),
      )

  connect_any-IsSafe :
      (parsed : Url) (port : ℕ) (addresses : List Text) (st : State n)
      → Pinned n none st.log
      → Ready n parsed addresses st
      → IsSafe 0 st (connect_any n parsed port addresses st).1
  unfolding connect_any request_for
  connect_any-IsSafe parsed port [] st h r = record { pinned = h; few = omega arith }
  connect_any-IsSafe parsed port (a ∷ rest) st h r =
      let req = request_for parsed port a in
      let (attempt, w) = n.request st.world req in
      let (p, ready, same) = connected-Ready parsed req rest st w refl h r in
      let st' = record_event n st w (connected parsed req) in
      elim attempt
        as (λ x.
          IsSafe 0 st
            (elim x as (λ x. Result Response × State n) [
              | answered response ↦ (ok response, st')
              | os_error ↦ connect_any n parsed port rest st'
              | raised ↦ (err exception, st')
            ]).1) [
              | answered response ↦ record { pinned = p; few = omega arith }
              | os_error ↦
                  let later = connect_any-IsSafe parsed port rest st' p ready in
                  record { pinned = later.pinned; few = omega arith }
              | raised ↦ record { pinned = p; few = omega arith }
            ]

  connect_resolved-IsSafe :
      (st : State n) (x : Result (Url × ℕ × List Text) × State n)
      → IsResolved n st x
      → IsSafe 1 st (connect_resolved n x).1
  unfolding connect_resolved
  connect_resolved-IsSafe st (err e, st') r = record { pinned = r.pinned; few = r.once }
  connect_resolved-IsSafe st (ok (parsed, port, addresses), st') r =
      let c = connect_any-IsSafe parsed port addresses st' r.pinned r.ready in
      let once = r.once in record { pinned = c.pinned; few = omega arith }

  follow-IsSafe :
      (again : Text → State n → Result Bytes × State n) (k : ℕ)
      → ((url : Text) (s : State n) → Pinned n none s.log → IsSafe k s (again url s).1)
      → (st st' : State n) (next : Next) → IsSafe 1 st st'
      → IsSafe (suc k) st (follow n again next st').1
  follow-IsSafe again k ih st st' (redirect target) h =
      let later = ih target st' h.pinned in
      let once = h.few in record { pinned = later.pinned; few = omega arith }
  follow-IsSafe again k ih st st' (finished result) h = record {
    pinned = h.pinned;
    few = omega arith;
  }

  finish_round-IsSafe :
      (again : Text → State n → Result Bytes × State n) (k : ℕ)
      → ((url : Text) (s : State n) → Pinned n none s.log → IsSafe k s (again url s).1)
      → (url : Text) (max_bytes : Option ℕ) (st : State n) (x : Result Response × State n)
      → IsSafe 1 st x.1
      → IsSafe (suc k) st (finish_round n again url max_bytes x).1
  unfolding finish_round
  finish_round-IsSafe again k ih url m st (err e, st') h = record {
    pinned = h.pinned;
    few = omega arith;
  }
  finish_round-IsSafe again k ih url m st (ok response, st') h =
      follow-IsSafe again k ih st st' (handle_response n url m response) h

  fetch_rounds-IsSafe :
      (m : Option ℕ) (k : ℕ) (url : Text) (st : State n)
      → Pinned n none st.log
      → IsSafe k st (fetch_rounds n m k url st).1
  unfolding fetch_rounds fetch_once
  fetch_rounds-IsSafe m zero url st h = record { pinned = h; few = omega arith }
  fetch_rounds-IsSafe m (suc k) url st h =
      finish_round-IsSafe (fetch_rounds n m k) k (fetch_rounds-IsSafe m k) url m st
        (fetch_once n url st)
        (connect_resolved-IsSafe st _ (resolve_public_url-IsResolved n url st h))

  -- Whatever the network answers, redirects included: if every connection in the log so far is
  -- pinned, every one is after `fetch`. A pinned connection goes to a global address that the
  -- log's last resolution gave, for a URL that is https, has a hostname and no credentials, and
  -- whose hostname is the one that was resolved and that TLS checks. `fetch` resolves at most six
  -- times.
  pub fetch-Pinned :
      (url : Text) (max_bytes : Option ℕ) (st : State n)
      → Pinned n none st.log
      → Pinned n none (fetch n url max_bytes st).1.log
        × (resolutions (fetch n url max_bytes st).1.log ≤ resolutions st.log + 6)
  unfolding fetch
  fetch-Pinned url m st h = let safe = fetch_rounds-IsSafe m 6 url st h in (safe.pinned, safe.few)
