-- ===== src/IosHttp/Tests.antt =====
-- Requests to the server, with a directory that holds the page only.
use gpn.Prelude.{none, some, if◌then◌else◌, refl, Option, All, ◌≡◌, ◌++◌, pos}
use gpn.Text.Equality.{eqb}
use gpn.Text.{Text, codes, ascii}
use gpn.IosHttp.{serve, reply_to, [], some, length}
use gpn.IosHttp.Answers.{after_blank, declared_length, serve-framing}
use gpn.IosHttp.Files.{IsPublished, reply_to-opened}
use gpn.Text.Number.{int_of}

abbrev pages : Text → Option Text
pages f = if eqb f (codes "/www/index.html") then some (codes "hello") else none

abbrev request : Text
request = codes "GET /?x=1 HTTP/1.1\r\nHost: a\r\n"

serve-request :
    serve (codes "/www") pages request
    ≡ codes "HTTP/1.1 200 OK\r\nContent-Type: text/html; charset=utf-8\r\nContent-Length: 5\r\n"
      ++ codes "Connection: close\r\n\r\nhello"
unfolding serve
serve-request = refl

serve-other : (reply_to (codes "/www") pages (codes "GET /../etc HTTP/1.1\r\n")).opened ≡ []
unfolding reply_to
serve-other = refl

reply_to-opened_example :
    All (IsPublished (codes "/www") pages) (reply_to (codes "/www") pages request).opened
reply_to-opened_example = reply_to-opened (codes "/www") pages request

serve-framing_example :
    (after_blank (serve (codes "/www") pages request)
      ≡ some (reply_to (codes "/www") pages request).body)
    × ((l : Text) × (declared_length (serve (codes "/www") pages request) ≡ some l)
        × (int_of ⦃u = ascii⦄ l ≡ some (pos (length (reply_to (codes "/www") pages request).body))))
serve-framing_example = serve-framing (codes "/www") pages ⦃u = ascii⦄ request
