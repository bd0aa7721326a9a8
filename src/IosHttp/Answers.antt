-- ===== src/IosHttp/Answers.antt =====
-- How a client reads a response: the body behind the blank line, and the declared length.
use gpn.Prelude.{
  ℕ, false, List, [], ◌∷◌, ◌++◌, Option, none, some, ◌≡◌, ◌∙◌, refl, ap, arith, ◌==◌, inl, inr,
  Bool-cases, Option-cases, pos, length, if◌then◌else◌, All, drop, All-mono,
}
use gpn.Text.{Text, codes, Unicode}
use gpn.Text.Decimal.{decimal}
use gpn.Text.Decimal.RoundTrip.{IsDigit, decimal-IsDigit, int_of-decimal}
use gpn.Text.Number.{int_of}
use gpn.Text.Search.{has, starts_with}
use gpn.Text.Split.{before, words}
use gpn.Text.Split.Pieces.{IsNot, cut-at}
use gpn.IosHttp.{
  Reply, response, bad_request, not_found, Route, routes, serve_file, serve_path, serve_words,
  serve, path_join, find_route, eqb, reply_to, readline,
}
use gpn.Text.Search.Counts.{has-IsNot, IsNot-has}
use gpn.IosHttp.Files.{find_route-All}

-- the text behind the first "\r\n\r\n"
unfoldable pub after_blank : Text → Option Text
unfolding starts_with
after_blank [] = none
after_blank (c ∷ s) =
    let rest = after_blank s in
    if starts_with (codes "\r\n\r\n") (c ∷ s) then some (drop 3 s) else rest

-- the text behind the first "Length: ", up to the end of its line
unfoldable pub declared_length : Text → Option Text
unfolding starts_with before
declared_length [] = none
declared_length (c ∷ s) =
    let rest = declared_length s in
    if starts_with (codes "\nContent-Length: ") (c ∷ s)
    then some (before b'\r' (drop 16 s))
    else rest

not_head : (x c : ℕ) → IsNot x c → (x == c) ≡ false
not_head x c h = ground arith

after_blank-skip : (a s : Text) → All (IsNot b'\r') a → after_blank (a ++ s) ≡ after_blank s
unfolding after_blank
after_blank-skip [] s h = refl
after_blank-skip (c ∷ a) s h = rw (not_head b'\r' c h.0) (after_blank-skip a s h.1)

declared_length-skip :
    (a s : Text) → All (IsNot b'\n') a → declared_length (a ++ s) ≡ declared_length s
unfolding declared_length
declared_length-skip [] s h = refl
declared_length-skip (c ∷ a) s h = rw (not_head b'\n' c h.0) (declared_length-skip a s h.1)

digit_no_return : (c : ℕ) → IsDigit c → IsNot b'\r' c
digit_no_return c h = ground arith

digit_no_newline : (c : ℕ) → IsDigit c → IsNot b'\n' c
digit_no_newline c h = ground arith

abbrev IsLine : Text → Type 0
IsLine s = All (IsNot b'\r') s × All (IsNot b'\n') s

decimal-IsLine : (n : ℕ) → IsLine (decimal n)
decimal-IsLine n = (
  All-mono IsDigit (IsNot b'\r') digit_no_return (decimal n) (decimal-IsDigit n),
  All-mono IsDigit (IsNot b'\n') digit_no_newline (decimal n) (decimal-IsDigit n),
)

before-line : (a s : Text) → All (IsNot b'\r') a → before b'\r' (a ++ b'\r' ∷ s) ≡ a
unfolding before
before-line a s h = ap (λ x. x.0) (cut-at b'\r' a s (IsNot-has b'\r' a h))

-- A reply whose status and type stand on one line.
abbrev IsFramed : Reply → Type 0
IsFramed r = IsLine r.status × IsLine r.ctype

body-response : (r : Reply) → IsFramed r → after_blank (response r) ≡ some r.body
unfolding response
body-response r (status, ctype) =
    let number = decimal-IsLine (length r.body) in
    let ending = codes "\r\nConnection: close\r\n\r\n" ++ r.body in
    let line = codes "\r\nContent-Length: " ++ (decimal (length r.body) ++ ending) in
    let typed = codes "\r\nContent-Type: " ++ (r.ctype ++ line) in
    unfold after_blank in
    (after_blank-skip r.status typed status.0
      ∙ after_blank-skip r.ctype line ctype.0
      ∙ after_blank-skip (decimal (length r.body)) ending number.0)

length-response :
    (r : Reply) → IsFramed r → declared_length (response r) ≡ some (decimal (length r.body))
unfolding response
length-response r (status, ctype) =
    let number = decimal-IsLine (length r.body) in
    let ending = codes "\nConnection: close\r\n\r\n" ++ r.body in
    let line = codes "\r\nContent-Length: " ++ (decimal (length r.body) ++ b'\r' ∷ ending) in
    let typed = codes "\r\nContent-Type: " ++ (r.ctype ++ line) in
    unfold declared_length in
    (declared_length-skip r.status typed status.1
      ∙ declared_length-skip r.ctype line ctype.1
      ∙ ap some (before-line (decimal (length r.body)) ending number.0))

literal-IsLine : (s : Text) → has b'\r' s ≡ false → has b'\n' s ≡ false → IsLine s
literal-IsLine s h k = (has-IsNot b'\r' s h, has-IsNot b'\n' s k)

bad_request-IsFramed : IsFramed bad_request
unfolding has
bad_request-IsFramed =
    (literal-IsLine bad_request.status refl refl, literal-IsLine (codes "text/plain") refl refl)

not_found-IsFramed : (opened : List Text) → IsFramed (not_found opened)
unfolding has
not_found-IsFramed opened = (
  literal-IsLine (codes "404 Not Found") refl refl,
  literal-IsLine (codes "text/plain") refl refl,
)

HasLine : Route → Type 0
HasLine r = IsLine r.ctype

routes-HasLine : All HasLine routes
unfolding routes has HasLine
routes-HasLine =
    let html = literal-IsLine (codes "text/html; charset=utf-8") refl refl in
    (literal-IsLine (codes "application/x-apple-aspen-config") refl refl, (html, (html, tt)))

module _ (www_dir : Text) (files : Text → Option Text) where
  serve_file-IsFramed : (r : Route) → HasLine r → IsFramed (serve_file www_dir files r)
  unfolding serve_file has HasLine
  serve_file-IsFramed r h = elim (Option-cases (files (path_join www_dir r.filename))) [
    | inl e ↦ rw (e, serve_file) (not_found-IsFramed (path_join www_dir r.filename ∷ []))
    | inr (body, e) ↦ rw (e, serve_file) (literal-IsLine (codes "200 OK") refl refl, h)
  ]

  serve_path-IsFramed : (target : Text) → IsFramed (serve_path www_dir files target)
  unfolding serve_path
  serve_path-IsFramed target = elim (Option-cases (find_route (before b'?' target) routes)) [
    | inl e ↦ rw (e, serve_path) (not_found-IsFramed [])
    | inr (r, e) ↦
        rw (e, serve_path)
          (serve_file-IsFramed r
            (find_route-All HasLine (before b'?' target) routes r routes-HasLine e))
  ]

  serve_words-IsFramed : (ws : List Text) → IsFramed (serve_words www_dir files ws)
  unfolding serve_words
  serve_words-IsFramed [] = bad_request-IsFramed
  serve_words-IsFramed (m ∷ []) = bad_request-IsFramed
  serve_words-IsFramed (m ∷ t ∷ _) = elim (Bool-cases (eqb m (codes "GET"))) [
    | inl e ↦ rw e (serve_path-IsFramed t)
    | inr e ↦ rw e bad_request-IsFramed
  ]

  -- Whatever bytes a client sends, it gets one response from which it can read the body back:
  -- behind the first blank line stands exactly the body that was chosen, and the number that
  -- Content-Length declares is the body's length.
  pub serve-framing :
      ⦃u : Unicode⦄ (input : Text)
      → (after_blank (serve www_dir files input) ≡ some (reply_to www_dir files input).body)
        × ((l : Text) × (declared_length (serve www_dir files input) ≡ some l)
            × (int_of l ≡ some (pos (length (reply_to www_dir files input).body))))
  unfolding serve reply_to
  serve-framing input =
      let r = reply_to www_dir files input in
      let framed = serve_words-IsFramed (words (readline 8192 input)) in
      (
        body-response r framed,
        (decimal (length r.body), length-response r framed, int_of-decimal (length r.body)),
      )
