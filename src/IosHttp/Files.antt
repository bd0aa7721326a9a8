-- ===== src/IosHttp/Files.antt =====
-- Which files a request can open.
use gpn.Prelude.{
  List, [], ◌∷◌, Option, some, ◌≡◌, ◌⊎◌, inl, inr, refl, All, Bool-cases, Option-cases, subst,
}
use gpn.Text.{Text, codes}
use gpn.Text.Equality.{eqb}
use gpn.Text.Split.{before, words}
use gpn.IosHttp.{
  readline, path_join, Route, routes, find_route, serve_file, serve_path, serve_words, reply_to,
}

pub find_route-All :
    (P : Route → Type 0) (path : Text) (rs : List Route) (r : Route)
    → All P rs
    → find_route path rs ≡ some r
    → P r
unfolding find_route
find_route-All P path [] r h e = cc
find_route-All P path (x ∷ rs) r h e = elim (Bool-cases (eqb path x.path)) [
  | inl f ↦ subst P {x = x} (cc (rw f at e)) h.0
  | inr f ↦ find_route-All P path rs r h.1 (rw f at e)
]

module _ (www_dir : Text) (files : Text → Option Text) where
  -- one of the two files that are published
  abbrev pub IsPublished : Text → Type 0
  IsPublished f =
      (f ≡ path_join www_dir (codes "ios-dot.mobileconfig"))
      ⊎ (f ≡ path_join www_dir (codes "index.html"))

  IsRouted : Route → Type 0
  IsRouted r = IsPublished (path_join www_dir r.filename)

  routes-IsRouted : All IsRouted routes
  unfolding routes IsRouted
  routes-IsRouted = (inl refl, (inr refl, (inr refl, tt)))

  serve_file-opened : (r : Route) → IsRouted r → All IsPublished (serve_file www_dir files r).opened
  unfolding serve_file IsRouted
  serve_file-opened r h = elim (Option-cases (files (path_join www_dir r.filename))) [
    | inl e ↦ rw (e, serve_file) (h, tt)
    | inr (body, e) ↦ rw (e, serve_file) (h, tt)
  ]

  serve_path-opened : (target : Text) → All IsPublished (serve_path www_dir files target).opened
  unfolding serve_path
  serve_path-opened target = elim (Option-cases (find_route (before b'?' target) routes)) [
    | inl e ↦ rw (e, serve_path) tt
    | inr (r, e) ↦
        rw (e, serve_path)
          (serve_file-opened r
            (find_route-All IsRouted (before b'?' target) routes r routes-IsRouted e))
  ]

  serve_words-opened : (ws : List Text) → All IsPublished (serve_words www_dir files ws).opened
  unfolding serve_words
  serve_words-opened [] = tt
  serve_words-opened (m ∷ []) = tt
  serve_words-opened (m ∷ t ∷ _) = elim (Bool-cases (eqb m (codes "GET"))) [
    | inl e ↦ rw e (serve_path-opened t)
    | inr e ↦ rw e tt
  ]

  -- Whatever bytes a client sends, no file but the two published ones is opened.
  pub reply_to-opened : (input : Text) → All IsPublished (reply_to www_dir files input).opened
  unfolding reply_to
  reply_to-opened input = serve_words-opened (words (readline 8192 input))
