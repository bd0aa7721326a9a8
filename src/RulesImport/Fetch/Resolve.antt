-- ===== src/RulesImport/Fetch/Resolve.antt =====
-- What `resolve_public_url` hands on, and the log of resolutions and connections.
use gpn.Prelude.{
  ℕ, suc, ◌+◌, ◌≤◌, true, false, List, [], ◌∷◌, ◌++◌, Option, none, some, ◌≡◌, refl, arith, All,
  All-append, inl, inr, Bool-cases, Option-cases, subst, if◌then◌else◌,
}
use gpn.Text.{Text, codes, Unicode, lower}
use gpn.Text.Equality.{eqb_iff, is_in, is_in_self}
use gpn.RulesImport.Network.{Url, Request, Network, Result, ok, err}
use gpn.RulesImport.Fetch.{
  is_set, text_of, port_or, Event, resolved, connected, State, check_url_parts, parse_remote_url,
  public_addresses, answered_with, with_target, resolve_parsed, resolve_public_url,
}

-- the host and the answers of the last resolution
abbrev pub Answer : Type 0
Answer = Option (Text × List Text)

abbrev pub last_answer : Answer → List Event → Answer
last_answer cur [] = cur
last_answer cur (resolved host port infos ∷ es) = last_answer (some (host, infos)) es
last_answer cur (connected parsed req ∷ es) = last_answer cur es

-- the resolutions in a log
abbrev pub resolutions : List Event → ℕ
resolutions [] = 0
resolutions (resolved host port infos ∷ es) = suc (resolutions es)
resolutions (connected parsed req ∷ es) = resolutions es

pub last_answer-append :
    (cur : Answer) (es fs : List Event)
    → last_answer cur (es ++ fs) ≡ last_answer (last_answer cur es) fs
last_answer-append cur [] fs = refl
last_answer-append cur (resolved host port infos ∷ es) fs =
    last_answer-append (some (host, infos)) es fs
last_answer-append cur (connected parsed req ∷ es) fs = last_answer-append cur es fs

pub resolutions-append :
    (es fs : List Event) → resolutions (es ++ fs) ≡ resolutions es + resolutions fs
resolutions-append [] fs = omega arith
resolutions-append (resolved host port infos ∷ es) fs = omega (arith, resolutions-append es fs)
resolutions-append (connected parsed req ∷ es) fs = resolutions-append es fs

module _ ⦃u : Unicode⦄ (n : Network) where
  -- A URL that passed `_parse_remote_url`.
  pub record IsPublicUrl (parsed : Url) : Type 0 where
    pub https : lower parsed.scheme ≡ codes "https"
    pub host : is_set parsed.hostname ≡ true
    pub no_user : is_set parsed.username ≡ false
    pub no_password : is_set parsed.password ≡ false

  -- The connection goes to a global address that the last resolution gave for the host whose
  -- name TLS checks.
  pub record IsPinned (host : Text) (infos : List Text) (parsed : Url) (req : Request)
      : Type 0 where
    pub url : IsPublicUrl parsed
    pub name : req.hostname ≡ host
    pub url_name : text_of parsed.hostname ≡ host
    pub answer : is_in req.address infos ≡ true
    pub global : n.is_global req.address ≡ some true

  -- Every connection of a log is pinned by the resolution before it.
  abbrev pub Pinned : Option (Text × List Text) → List Event → Type 0
  Pinned cur [] = Unit
  Pinned cur (resolved host port infos ∷ es) = Pinned (some (host, infos)) es
  Pinned none (connected parsed req ∷ es) = ⊥
  Pinned (some (host, infos)) (connected parsed req ∷ es) =
      IsPinned host infos parsed req × Pinned (some (host, infos)) es

  pub Pinned-append :
      (cur : Answer) (es fs : List Event)
      → Pinned cur es
      → Pinned (last_answer cur es) fs
      → Pinned cur (es ++ fs)
  Pinned-append cur [] fs h k = k
  Pinned-append cur (resolved host port infos ∷ es) fs h k =
      Pinned-append (some (host, infos)) es fs h k
  Pinned-append none (connected parsed req ∷ es) fs h k = absurd h
  Pinned-append (some c) (connected parsed req ∷ es) fs h k =
      (h.0, Pinned-append (some c) es fs h.1 k)

  check_url_parts-IsPublicUrl :
      (o : Option Url) (parsed : Url) → check_url_parts n o ≡ ok parsed → IsPublicUrl parsed
  unfolding check_url_parts
  check_url_parts-IsPublicUrl none parsed e = cc
  check_url_parts-IsPublicUrl (some url) parsed e =
      ground (arith, eqb_iff (lower url.scheme) (codes "https"))

  -- what `public_addresses` keeps
  abbrev pub IsKept : List Text → Text → Type 0
  IsKept infos a = (is_in a infos ≡ true) × (n.is_global a ≡ some true)

  extended :
      (whole addresses : List Text) (a : Text)
      → All (IsKept whole) addresses
      → IsKept whole a
      → All (IsKept whole) (if is_in a addresses then addresses else addresses ++ a ∷ [])
  extended whole addresses a h k = elim (Bool-cases (is_in a addresses)) [
    | inl e ↦ rw e h
    | inr e ↦ rw e (All-append (IsKept whole) addresses (a ∷ []) h (k, tt))
  ]

  public_addresses-IsKept :
      (whole infos addresses out : List Text)
      → All (λ a. is_in a whole ≡ true) infos
      → All (IsKept whole) addresses
      → public_addresses n infos addresses ≡ ok out
      → All (IsKept whole) out
  unfolding public_addresses
  public_addresses-IsKept whole [] [] out m h e = cc
  public_addresses-IsKept whole [] (a ∷ rest) out m h e =
      subst (λ l. All (IsKept whole) l) {x = a ∷ rest} (cc) h
  public_addresses-IsKept whole (a ∷ infos) addresses out m h e =
      elim (Option-cases (n.is_global a)) [
        | inl g ↦ cc (rw (g, public_addresses) at e)
        | inr (false, g) ↦ cc (rw (g, public_addresses) at e)
        | inr (true, g) ↦
            public_addresses-IsKept whole infos _ out m.1 (extended whole addresses a h (m.0, g))
              (rw (g, public_addresses) at e)
      ]

  -- The addresses that are handed on, in a state that has just resolved them.
  pub record Ready (parsed : Url) (addresses : List Text) (st : State n) : Type 0 where
    pub infos : List Text
    pub url : IsPublicUrl parsed
    pub kept : All (IsKept infos) addresses
    pub last : last_answer none st.log ≡ some (text_of parsed.hostname, infos)

  abbrev pub ReadyIf : Result (Url × ℕ × List Text) → State n → Type 0
  ReadyIf (err e) st = Unit
  ReadyIf (ok (parsed, port, addresses)) st = Ready parsed addresses st

  -- What a resolution leads to: its log is pinned, has at most one resolution more, and where it
  -- succeeds the addresses are ready.
  pub record IsResolved (st : State n) (x : Result (Url × ℕ × List Text) × State n) : Type 0 where
    pub pinned : Pinned none x.1.log
    pub once : resolutions x.1.log ≤ resolutions st.log + 1
    pub ready : ReadyIf x.0 x.1

  with_target-Ready :
      (parsed : Url) (port : ℕ) (infos : List Text) (st : State n) (r : Result (List Text))
      → IsPublicUrl parsed
      → last_answer none st.log ≡ some (text_of parsed.hostname, infos)
      → public_addresses n infos [] ≡ r
      → ReadyIf (with_target parsed port r) st
  with_target-Ready parsed port infos st (err x) url l e = tt
  with_target-Ready parsed port infos st (ok addresses) url l e = record {
    infos = infos;
    url = url;
    kept = public_addresses-IsKept infos infos [] addresses (is_in_self infos) tt e;
    last = l;
  }

  answered_with-IsResolved :
      (parsed : Url) (port : ℕ) (answer : Option (List Text) × n.World) (st : State n)
      → IsPublicUrl parsed
      → Pinned none st.log
      → IsResolved st (answered_with n parsed port answer st)
  unfolding answered_with
  answered_with-IsResolved parsed port (none, w) st url h = record {
    pinned = h;
    once = omega arith;
    ready = tt;
  }
  answered_with-IsResolved parsed port (some infos, w) st url h =
      let e = resolved (text_of parsed.hostname) port infos in
      record {
        pinned = Pinned-append none st.log (e ∷ []) h tt;
        once = omega (arith, resolutions-append st.log (e ∷ []));
        ready =
            with_target-Ready parsed port infos _ (public_addresses n infos []) url
              (last_answer-append none st.log (e ∷ [])) refl;
      }

  resolve_parsed-IsResolved :
      (r : Result Url) (st : State n)
      → ((parsed : Url) → r ≡ ok parsed → IsPublicUrl parsed)
      → Pinned none st.log
      → IsResolved st (resolve_parsed n r st)
  unfolding resolve_parsed
  resolve_parsed-IsResolved (err e) st url h = record { pinned = h; once = omega arith; ready = tt }
  resolve_parsed-IsResolved (ok parsed) st url h = elim (Option-cases (port_or 443 parsed.port)) [
    | inl e ↦ rw (e, resolve_parsed) (record { pinned = h; once = omega arith; ready = tt })
    | inr (port, e) ↦
        rw (e, resolve_parsed)
          (answered_with-IsResolved parsed port
            (n.getaddrinfo st.world (text_of parsed.hostname) port) st (url parsed refl) h)
  ]

  pub resolve_public_url-IsResolved :
      (url : Text) (st : State n) → Pinned none st.log → IsResolved st (resolve_public_url n url st)
  unfolding resolve_public_url parse_remote_url
  resolve_public_url-IsResolved url st h =
      resolve_parsed-IsResolved (check_url_parts n (n.urlsplit url)) st
        (check_url_parts-IsPublicUrl (n.urlsplit url)) h
