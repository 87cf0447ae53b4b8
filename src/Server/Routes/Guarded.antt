-- ===== src/Server/Routes/Guarded.antt =====
-- Which requests reach a handler.
use Prim.Native.String.{◌++◌ as concat}
use Prim.Native.String.append
use Prim.Native.Char.{Char, code}
use text.Mathlib.Text.{◌==◌ as str_eq}
use text.Mathlib.TextEquality.{eq_iff}
use micro_coin.Base.{
  ℕ, ◌≡◌, ◌∙◌, ap, subst, refl, sym, ◌≢◌, Bool-cases, Bool, true, false, List, [], ◌∷◌, String,
  some, ◌⊎◌, inl, inr, Option-cases, arith,
}
use micro_coin.Models.{ErrorResponse}
use micro_coin.Database.World.{World}
use micro_coin.Http.{Request, Response, HandlerFunc, header_get}
use micro_coin.Auth.Tokens.{Jwt}
use micro_coin.Auth.Middleware.{should_skip_auth, auth_middleware}
use micro_coin.Rate.Number.{Number}
use micro_coin.Rate.Limiter.{Redis}
use micro_coin.Server.App.{health, signup, login}
use micro_coin.Server.Stack.{serve}
use micro_coin.Server.Stack.Entry.{Entered, serve_cases}
use micro_coin.Server.Routes.{
  Endpoint, page, Route, routes, Match, IsMatch, OneOf, FitsPath, router,
}

-- The endpoints that ask for no token.
abbrev pub is_open : Endpoint → Bool
is_open (page health) = true
is_open (page signup) = true
is_open (page login) = true
is_open _ = false

slash : Char
slash = "/"

letter_a : Char
letter_a = "a"

letter_p : Char
letter_p = "p"

first_letters :
    (id : String)
    → concat "/api/orders/" id
      ≡ String.◌∷◌ slash (String.◌∷◌ letter_a (String.◌∷◌ letter_p (concat "i/orders/" id)))
unfolding slash letter_a letter_p
first_letters id =
    append.cons slash "api/orders/" id
    ∙ ap (String.◌∷◌ slash) (
        append.cons letter_a "pi/orders/" id
        ∙ ap (String.◌∷◌ letter_a) (append.cons letter_p "i/orders/" id))

-- The third letter of a text, which tells its path from those that are let through.
abbrev third : String → ℕ
third (String.◌∷◌ a (String.◌∷◌ b (String.◌∷◌ c s))) = code c
third _ = 0

third-id : (id : String) → third (concat "/api/orders/" id) ≡ 112
unfolding slash letter_a letter_p
third-id id = rw (first_letters id) refl

differs : (id path : String) → third path ≢ 112 → str_eq (concat "/api/orders/" id) path ≡ false
differs id path ne = elim (Bool-cases (str_eq (concat "/api/orders/" id) path)) [
  | inl e ↦
      absurd (ne (sym (ap third ((eq_iff (concat "/api/orders/" id) path).0 e)) ∙ third-id id))
  | inr e ↦ e
]

id_guarded : (id : String) → should_skip_auth (concat "/api/orders/" id) ≡ false
unfolding should_skip_auth
id_guarded id =
    rw
      (
        differs id "/auth/signup" (λ e. omega (arith, e)),
        differs id "/auth/login" (λ e. omega (arith, e)),
        differs id "/health" (λ e. omega (arith, e)),
        differs id "/metrics" (λ e. omega (arith, e)),
      )
      refl

abbrev Each : {A : Type 0} → (A → Type 0) → List A → Type 0
Each P [] = Unit
Each P (x ∷ xs) = P x × Each P xs

one_of : {A : Type 0} (P : A → Type 0) (xs : List A) (a : A) → Each P xs → OneOf a xs → P a
one_of P [] a t m = absurd m
one_of P (x ∷ xs) a (t, ts) (inl e) = subst P (sym e) t
one_of P (x ∷ xs) a (t, ts) (inr m) = one_of P xs a ts m

abbrev Guarded : Route → Type 0
Guarded t =
    (path : String)
    → FitsPath t.template path
    → is_open t.endpoint ≡ false
    → should_skip_auth path ≡ false

open_route : (path : String) → true ≡ false → should_skip_auth path ≡ false
open_route path e = absurd cc

-- The paths of the routes that ask for a token are let through by neither middleware.
routes-Guarded : Each Guarded routes
unfolding routes should_skip_auth
routes-Guarded = (
  (λ path f o. open_route path o),
  (
    (λ path f o. open_route path o),
    (
      (λ path f o. open_route path o),
      (
        (λ path f o. rw f refl),
        (
          (λ path f o. rw f refl),
          (
            (λ path f o. rw f refl),
            (
              (λ path f o. rw f.1 (id_guarded f.0)),
              ((λ path f o. rw f refl), ((λ path f o. rw f refl), tt)),
            ),
          ),
        ),
      ),
    ),
  ),
)

not_options :
    (x : String)
    → ((m : String) → m ≡ "OPTIONS" → m ≡ x → ⊥)
    → (m : String) → m ≡ "OPTIONS"
    → ((x ∷ []) ≡ []) ⊎ OneOf m (x ∷ [])
    → ⊥
not_options x ne m e (inl empty) = absurd cc
not_options x ne m e (inr (inl same)) = ne m e same
not_options x ne m e (inr (inr n)) = n

abbrev Closed : Route → Type 0
Closed t =
    (path m : String)
    → m ≡ "OPTIONS"
    → (t.methods ≡ []) ⊎ OneOf m t.methods
    → FitsPath t.template path
    → should_skip_auth path ≡ false

no_get : (m : String) → m ≡ "OPTIONS" → m ≡ "GET" → ⊥
no_get m e e' = cc

no_post : (m : String) → m ≡ "OPTIONS" → m ≡ "POST" → ⊥
no_post m e e' = cc

-- Only the route of the web socket takes OPTIONS.
routes-Closed : Each Closed routes
unfolding routes should_skip_auth
routes-Closed = (
  (λ path m e k f. absurd (not_options "GET" no_get m e k)),
  (
    (λ path m e k f. absurd (not_options "POST" no_post m e k)),
    (
      (λ path m e k f. absurd (not_options "POST" no_post m e k)),
      (
        (λ path m e k f. rw f refl),
        (
          (λ path m e k f. rw f refl),
          (
            (λ path m e k f. rw f refl),
            (
              (λ path m e k f. rw f.1 (id_guarded f.0)),
              ((λ path m e k f. rw f refl), ((λ path m e k f. rw f refl), tt)),
            ),
          ),
        ),
      ),
    ),
  ),
)

module _ {R D : Type 0} ⦃num : Number R⦄ (redis_up : Bool) (jwt : Jwt)
    (encode : ErrorResponse → String) (digits : ℕ → String)
    (handlers : Endpoint → HandlerFunc (World D)) where
  -- The result of a request that has a route for which a token is asked.
  abbrev pub Answered :
      Route → Request → Redis R × World D → Response × (Redis R × World D) → Type 0
  Answered t r s v =
      (v.0.code ≡ 401) × (v.1.1.tables ≡ s.1.tables)
      ⊎ ((v.0.code ≡ 429) ⊎ (v.0.code ≡ 500)) × (v.1.1.tables ≡ s.1.tables)
      ⊎ Entered redis_up jwt encode digits (handlers t.endpoint) r s

  refused :
      (t : Route) (r : Request) (s : Redis R × World D)
      → should_skip_auth r.path ≡ false
      → header_get "Authorization" r.headers ≡ ""
      → (serve redis_up jwt encode digits (handlers t.endpoint) r s).0.code ≡ 401
  unfolding serve auth_middleware
  refused t r s guarded h =
      let empty : str_eq (header_get "Authorization" r.headers) "" ≡ true = rw h refl in
      ground (arith, guarded, empty)

module _ {R D : Type 0} ⦃num : Number R⦄ (match : Match) (law : IsMatch match)
    (unmatched : Request → Response) (redis_up : Bool) (jwt : Jwt) (encode : ErrorResponse → String)
    (digits : ℕ → String) (handlers : Endpoint → HandlerFunc (World D)) where
  abbrev served : Request → Redis R × World D → Response × (Redis R × World D)
  served r s = router match unmatched redis_up jwt encode digits handlers r s

  router_serves :
      (t : Route) (r : Request) (s : Redis R × World D)
      → match routes r ≡ some t
      → served r s ≡ serve redis_up jwt encode digits (handlers t.endpoint) r s
  unfolding router
  router_serves t r s h = rw (router, h) refl

  -- However mux chooses a route among those registered, every request either has no route and changes
  -- nothing, or has the route of the health check, of signup or of login, or is answered 401, 429 or
  -- 500 with no table changed, or has entered the handler of its route with a valid token of a user
  -- whom the limiter allows, if there is one: there is none if Redis did not answer at the start. The
  -- chosen route must be registered and fit the path.
  pub router_cases :
      (r : Request) (s : Redis R × World D)
      → (served r s ≡ (unmatched r, s))
        ⊎ ((t : Route) × (match routes r ≡ some t)
            × ((is_open t.endpoint ≡ true)
                ⊎ Answered redis_up jwt encode digits handlers t r s (served r s)))
  unfolding router
  router_cases r s = elim (Option-cases (match routes r)) [
    | inl h ↦ inl (rw (router, h) refl)
    | inr (t, h) ↦ inr (
      t,
      h,
      elim (Bool-cases (is_open t.endpoint)) [
        | inl o ↦ inl o
        | inr o ↦
            let guarded : should_skip_auth r.path ≡ false =
              one_of Guarded routes t routes-Guarded (law.registered routes r t h) r.path
                (law.path routes r t h) o in
            inr (
              subst (Answered redis_up jwt encode digits handlers t r s)
                (sym (router_serves t r s h))
                (serve_cases redis_up jwt encode digits (handlers t.endpoint) r s guarded))
      ],
    )
  ]

  -- A request with the method OPTIONS and no Authorization header, as a browser sends it before a
  -- request of another origin, has no route or is answered 401: none reaches `corsMiddleware`, which
  -- would answer 200. The chosen route must be registered and fit the path and the method.
  pub preflight_unanswered :
      (r : Request) (s : Redis R × World D)
      → r.method ≡ "OPTIONS"
      → header_get "Authorization" r.headers ≡ ""
      → (served r s ≡ (unmatched r, s)) ⊎ ((served r s).0.code ≡ 401)
  unfolding router
  preflight_unanswered r s m h = elim (Option-cases (match routes r)) [
    | inl k ↦ inl (rw (router, k) refl)
    | inr (t, k) ↦
        let guarded : should_skip_auth r.path ≡ false =
          one_of Closed routes t routes-Closed (law.registered routes r t k) r.path r.method m
            (law.method routes r t k) (law.path routes r t k) in
        inr (
          ap (λ (v : Response × (Redis R × World D)). v.0.code) (router_serves t r s k)
          ∙ refused redis_up jwt encode digits handlers t r s guarded h)
  ]
