-- ===== src/IosHttp.antt =====
-- ios-http.py: one HTTP request on standard input, one response on standard output. The alarm
-- that ends a stalled process is left out.
pub mod Files
pub mod Answers
mod Tests
use gpn.Prelude.{
  ℕ, suc, zero, Bool, true, false, not, ◌||◌, List, [], ◌∷◌, ◌++◌, Option, none, some, length, ◌==◌,
  if◌then◌else◌,
}
use gpn.Text.{Text, codes}
use gpn.Text.Decimal.{decimal}
use gpn.Text.Equality.{eqb}
use gpn.Text.Split.{before, words}

-- `inp.readline(limit)`: up to the first newline, which is included
unfoldable pub readline : ℕ → Text → Text
readline zero input = []
readline (suc limit) [] = []
readline (suc limit) (c ∷ input) =
    let rest = readline limit input in if c == b'\n' then c ∷ [] else c ∷ rest

-- `os.path.join(dir, name)`, for a name that does not begin with a slash
unfoldable pub path_join : Text → Text → Text
path_join [] name = name
path_join (c ∷ []) name = if c == b'/' then c ∷ name else c ∷ b'/' ∷ name
path_join (c ∷ d ∷ dir) name = c ∷ path_join (d ∷ dir) name

-- one entry of `ROUTES`: the path, the file and its type
pub record Route : Type 0 where
  pub path : Text
  pub filename : Text
  pub ctype : Text

unfoldable pub routes : List Route
routes =
    record {
      path = codes "/ios-dot.mobileconfig";
      filename = codes "ios-dot.mobileconfig";
      ctype = codes "application/x-apple-aspen-config";
    }
    ∷ record {
      path = codes "/";
      filename = codes "index.html";
      ctype = codes "text/html; charset=utf-8";
    }
    ∷ record {
      path = codes "/index.html";
      filename = codes "index.html";
      ctype = codes "text/html; charset=utf-8";
    }
    ∷ []

-- `ROUTES.get(path)`
unfoldable pub find_route : Text → List Route → Option Route
unfolding eqb
find_route path [] = none
find_route path (r ∷ rs) = if eqb path r.path then some r else find_route path rs

-- the arguments of `write`, and the files that were opened before
pub record Reply : Type 0 where
  pub status : Text
  pub ctype : Text
  pub body : Text
  pub opened : List Text

abbrev pub bad_request : Reply
bad_request = record {
  status = codes "400 Bad Request";
  ctype = codes "text/plain";
  body = codes "bad request\n";
  opened = [];
}

abbrev pub not_found : List Text → Reply
not_found opened = record {
  status = codes "404 Not Found";
  ctype = codes "text/plain";
  body = codes "not found\n";
  opened = opened;
}

abbrev pub found : Text → Text → List Text → Reply
found ctype body opened = record {
  status = codes "200 OK";
  ctype = ctype;
  body = body;
  opened = opened;
}

-- what `write` sends
unfoldable pub response : Reply → Text
unfolding decimal
response r =
    codes "HTTP/1.1 "
    ++ (r.status
        ++ (codes "\r\nContent-Type: "
            ++ (r.ctype
                ++ (codes "\r\nContent-Length: "
                    ++ (decimal (length r.body)
                        ++ (codes "\r\nConnection: close\r\n\r\n" ++ r.body))))))

-- `files` reads a file; `none` is an `OSError`.
module _ (www_dir : Text) (files : Text → Option Text) where
  unfoldable pub serve_file : Route → Reply
  unfolding path_join
  serve_file r =
      let full = path_join www_dir r.filename in
      elim (files full) [
        | none ↦ not_found (full ∷ [])
        | some body ↦ found r.ctype body (full ∷ [])
      ]

  unfoldable pub serve_path : Text → Reply
  unfolding find_route routes serve_file before
  serve_path target = elim (find_route (before b'?' target) routes) [
    | none ↦ not_found []
    | some r ↦ serve_file r
  ]

  unfoldable pub serve_words : List Text → Reply
  unfolding eqb serve_path
  serve_words (method ∷ target ∷ _) =
      if not (eqb method (codes "GET")) then bad_request else serve_path target
  serve_words _ = bad_request

  -- The bytes are decoded as latin-1, each to the code point of its value.
  unfoldable pub reply_to : Text → Reply
  unfolding serve_words words readline
  reply_to input = serve_words (words (readline 8192 input))

  -- `main`
  unfoldable pub serve : Text → Text
  unfolding reply_to response
  serve input = response (reply_to input)
