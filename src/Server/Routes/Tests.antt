-- ===== src/Server/Routes/Tests.antt =====
-- A choice of routes by comparing texts, where the only id is "x", and two requests.
use Prim.Native.String.{◌++◌ as concat}
use text.Mathlib.Text.{◌==◌ as str_eq}
use text.Mathlib.TextEquality.{eq_iff}
use micro_coin.Base.{
  ℕ, ◌≡◌, refl, Bool, true, false, ◌&&◌, List, [], ◌∷◌, String, some, none, ◌⊎◌, inl, inr,
  Bool-cases, if◌then◌else◌, arith,
}
use micro_coin.Base.Int.{ℤ}
use micro_coin.Database.World.{World}
use micro_coin.Http.{Request, Response, HandlerFunc, http_error}
use micro_coin.Ledger.Tests.{world}
use micro_coin.Auth.Tests.{toy, request}
use micro_coin.Rate.Tests.{whole_numbers}
use micro_coin.Server.Stack.{serve}
use micro_coin.Server.Tests.{redis, page as some_page, encode, digits}
use micro_coin.Rate.Limiter.{Redis}
use micro_coin.Server.Routes.{
  Template, fixed, with_id, Route, Endpoint, routes, Match, IsMatch, OneOf, FitsPath, router,
}
use micro_coin.Server.Routes.Guarded.{is_open, Answered, router_cases, preflight_unanswered}

abbrev fits : Template → String → Bool
fits (fixed t) path = str_eq path t
fits (with_id t) path = str_eq path (concat t "x")

abbrev among : String → List String → Bool
among m [] = false
among m (x ∷ xs) = if str_eq m x then true else among m xs

abbrev takes : List String → String → Bool
takes [] m = true
takes (x ∷ xs) m = among m (x ∷ xs)

abbrev find : Match
find [] r = none
find (t ∷ ts) r = if fits t.template r.path && takes t.methods r.method then some t else find ts r

fits_lem : (t : Template) (path : String) → fits t path ≡ true → FitsPath t path
fits_lem (fixed t) path h = (eq_iff path t).0 h
fits_lem (with_id t) path h = ("x", (eq_iff path (concat t "x")).0 h)

among_lem : (m : String) (xs : List String) → among m xs ≡ true → OneOf m xs
among_lem m [] h = absurd cc
among_lem m (x ∷ xs) h = elim (Bool-cases (str_eq m x)) [
  | inl e ↦ inl ((eq_iff m x).0 e)
  | inr e ↦ inr (among_lem m xs (ground (arith, h, e)))
]

takes_lem : (xs : List String) (m : String) → takes xs m ≡ true → (xs ≡ []) ⊎ OneOf m xs
takes_lem [] m h = inl refl
takes_lem (x ∷ xs) m h = inr (among_lem m (x ∷ xs) h)

and_both : (a b : Bool) → (a && b) ≡ true → (a ≡ true) × (b ≡ true)
and_both true b e = (refl, e)
and_both false b e = (e, absurd cc)

-- What is known of the route that is found.
abbrev Found : List Route → Request → Route → Type 0
Found rs r t = OneOf t rs × (fits t.template r.path ≡ true) × (takes t.methods r.method ≡ true)

find_lem : (rs : List Route) (r : Request) (t : Route) → find rs r ≡ some t → Found rs r t
find_lem [] r t h = absurd cc
find_lem (u ∷ us) r t h = elim (Bool-cases (fits u.template r.path && takes u.methods r.method)) [
  | inl e ↦
      let same : t ≡ u = ground (arith, h, e) in
      let both : (fits u.template r.path ≡ true) × (takes u.methods r.method ≡ true) =
        and_both (fits u.template r.path) (takes u.methods r.method) e in
      (inl same, rw same both.0, rw same both.1)
  | inr e ↦ let (m, p, q) = find_lem us r t (ground (arith, h, e)) in (inr m, p, q)
]

find-IsMatch : IsMatch find
find-IsMatch = record {
  registered = λ rs r t h. (find_lem rs r t h).0;
  path = λ rs r t h. fits_lem t.template r.path (find_lem rs r t h).1;
  method = λ rs r t h. takes_lem t.methods r.method (find_lem rs r t h).2;
}

abbrev missing : Request → Response
missing r = http_error "404 page not found" 404

abbrev pages : Endpoint → HandlerFunc (World ℤ)
pages e = some_page

abbrev served : Request → Response × (Redis ℕ × World ℤ)
served r = router find missing true toy encode digits pages r (redis, world)

router_cases_example :
    (served request ≡ (missing request, (redis, world)))
    ⊎ ((t : Route) × (find routes request ≡ some t)
        × ((is_open t.endpoint ≡ true)
            ⊎ Answered true toy encode digits pages t request (redis, world) (served request)))
router_cases_example =
    router_cases find find-IsMatch missing true toy encode digits pages request (redis, world)

abbrev preflight : Request
preflight = record request { method = "OPTIONS"; path = "/ws/quotes"; headers = [] }

preflight_unanswered_example :
    (served preflight ≡ (missing preflight, (redis, world))) ⊎ ((served preflight).0.code ≡ 401)
preflight_unanswered_example =
    preflight_unanswered find find-IsMatch missing true toy encode digits pages preflight
      (redis, world) refl refl

-- The route of the portfolio is found, and none for an unknown path.
found_portfolio : served request ≡ serve true toy encode digits some_page request (redis, world)
unfolding router routes
found_portfolio = refl

found_none :
    served (record request { path = "/nowhere" })
    ≡ (missing (record request { path = "/nowhere" }), (redis, world))
unfolding router routes
found_none = refl
