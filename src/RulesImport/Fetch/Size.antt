-- ===== src/RulesImport/Fetch/Size.antt =====
-- How much `fetch` returns.
use gpn.Prelude.{
  ℕ, zero, suc, ◌+◌, ◌≤◌, Bool, true, false, [], Option, none, some, ◌≡◌, arith, inl, inr,
  Bool-cases, Option-cases, length, length-take-le, ltb, leb, not, ◌&&◌, ◌∷◌,
}
use gpn.Text.{Text, Unicode}
use gpn.RulesImport.Network.{Bytes, Response, Network, Result, ok, err}
use gpn.RulesImport.Fetch.{
  max_download_bytes, State, read, declares_too_much, check_size, is_redirect, smaller,
  unless_declared, read_body, Next, redirect, finished, redirect_to, handle_response, fetch_once,
  follow, finish_round, fetch_rounds, fetch,
}

-- the bound that a caller can count on
abbrev pub limit_of : Option ℕ → ℕ
limit_of none = max_download_bytes
limit_of (some m) = smaller m max_download_bytes

abbrev pub IsWithin : ℕ → Result Bytes → Type 0
IsWithin k (ok body) = length body ≤ k
IsWithin k (err e) = Unit

read-IsWithin : (k : ℕ) (response : Response) → IsWithin k (read k response)
unfolding read
read-IsWithin k response = elim (Option-cases response.body) [
  | inl e ↦ rw (e, read) tt
  | inr (body, e) ↦ rw (e, read) (length-take-le k body)
]

check_size-IsWithin : (r : Result Bytes) → IsWithin max_download_bytes (check_size r)
check_size-IsWithin (err e) = tt
check_size-IsWithin (ok body) = elim (Bool-cases (ltb max_download_bytes (length body))) [
  | inl e ↦ rw e tt
  | inr e ↦ rw e (ground arith)
]

module _ ⦃u : Unicode⦄ where
  declared-IsWithin :
      (declared : Result Bool) (r : Result Bytes)
      → IsWithin max_download_bytes r
      → IsWithin max_download_bytes (unless_declared declared r)
  declared-IsWithin (err e) r h = tt
  declared-IsWithin (ok true) r h = tt
  declared-IsWithin (ok false) r h = h

  read_body-IsWithin :
      (m : Option ℕ) (response : Response) → IsWithin (limit_of m) (read_body m response)
  unfolding read_body
  read_body-IsWithin (some k) response = read-IsWithin (smaller k max_download_bytes) response
  read_body-IsWithin none response =
      declared-IsWithin (declares_too_much response.content_length) _
        (check_size-IsWithin (read (max_download_bytes + 1) response))

module _ ⦃u : Unicode⦄ (n : Network) where
  abbrev NextWithin : ℕ → Next → Type 0
  NextWithin k (redirect target) = Unit
  NextWithin k (finished result) = IsWithin k result

  redirect_to-NextWithin :
      (k : ℕ) (url : Text) (o : Option Text) → NextWithin k (redirect_to n url o)
  unfolding redirect_to
  redirect_to-NextWithin k url none = tt
  redirect_to-NextWithin k url (some []) = tt
  redirect_to-NextWithin k url (some (c ∷ s)) = elim (Option-cases (n.urljoin url (c ∷ s))) [
    | inl e ↦ rw (e, redirect_to) tt
    | inr (target, e) ↦ rw (e, redirect_to) tt
  ]

  handle_response-NextWithin :
      (url : Text) (m : Option ℕ) (response : Response)
      → NextWithin (limit_of m) (handle_response n url m response)
  unfolding handle_response
  handle_response-NextWithin url m response = elim (Bool-cases (is_redirect response.status)) [
    | inl e ↦ rw e (redirect_to-NextWithin (limit_of m) url response.location)
    | inr e ↦ rw e (elim (Bool-cases (not (leb 200 response.status && ltb response.status 300))) [
      | inl f ↦ rw f tt
      | inr f ↦ rw f (read_body-IsWithin m response)
    ])
  ]

  follow-IsWithin :
      (again : Text → State n → Result Bytes × State n) (m : Option ℕ)
      → ((url : Text) (s : State n) → IsWithin (limit_of m) (again url s).0)
      → (next : Next) (st : State n) → NextWithin (limit_of m) next
      → IsWithin (limit_of m) (follow n again next st).0
  follow-IsWithin again m ih (redirect target) st h = ih target st
  follow-IsWithin again m ih (finished result) st h = h

  finish_round-IsWithin :
      (again : Text → State n → Result Bytes × State n) (m : Option ℕ)
      → ((url : Text) (s : State n) → IsWithin (limit_of m) (again url s).0)
      → (url : Text) (x : Result Response × State n)
      → IsWithin (limit_of m) (finish_round n again url m x).0
  unfolding finish_round
  finish_round-IsWithin again m ih url (err e, st) = tt
  finish_round-IsWithin again m ih url (ok response, st) =
      follow-IsWithin again m ih (handle_response n url m response) st
        (handle_response-NextWithin url m response)

  fetch_rounds-IsWithin :
      (m : Option ℕ) (k : ℕ) (url : Text) (st : State n)
      → IsWithin (limit_of m) (fetch_rounds n m k url st).0
  unfolding fetch_rounds
  fetch_rounds-IsWithin m zero url st = tt
  fetch_rounds-IsWithin m (suc k) url st =
      finish_round-IsWithin (fetch_rounds n m k) m (fetch_rounds-IsWithin m k) url
        (fetch_once n url st)

  -- What `fetch` returns is never longer than 20 MiB, nor than the caller's own limit, whatever
  -- length the server declares and however much it sends.
  pub fetch-IsWithin :
      (url : Text) (max_bytes : Option ℕ) (st : State n) (body : Bytes)
      → (fetch n url max_bytes st).0 ≡ ok body
      → length body ≤ limit_of max_bytes
  unfolding fetch
  fetch-IsWithin url m st body e = rw e at (fetch_rounds-IsWithin m 6 url st)
