-- ===== src/Server/Routes.antt =====
-- cmd/monolith/main.go: the routes that `main` registers, behind the middleware. The choice of a
-- route, by the package mux, is the parameter `match`, and `unmatched` is what the package answers to
-- a request without one: the middleware runs for a route only. The wrapper of the routes under /auth
-- passes every request on, and is left out.
pub mod Guarded
mod Tests
use Prim.Native.String.{◌++◌ as concat}
use micro_coin.Base.{ℕ, Bool, ◌≡◌, List, [], ◌∷◌, String, Option, none, some, ◌⊎◌}
use micro_coin.Models.{ErrorResponse}
use micro_coin.Database.World.{World}
use micro_coin.Http.{Request, Response, HandlerFunc}
use micro_coin.Auth.Tokens.{Jwt}
use micro_coin.Rate.Number.{Number}
use micro_coin.Rate.Limiter.{Redis}
use micro_coin.Server.Stack.{serve}
use micro_coin.Server.App.{
  Page, health, signup, login, top_up, quotes, new_order, order_by_id, portfolio,
}

-- A path, or a path with a last segment for the variable `id`.
pub data Template : Type 0 where
  fixed with_id : String → Template

pub data Endpoint : Type 0 where
  page : Page → Endpoint
  socket : Endpoint

-- No methods are all methods.
pub record Route : Type 0 where
  pub template : Template
  pub methods : List String
  pub endpoint : Endpoint

unfoldable pub routes : List Route
routes =
    record { template = fixed "/health"; methods = "GET" ∷ []; endpoint = page health }
    ∷ record { template = fixed "/auth/signup"; methods = "POST" ∷ []; endpoint = page signup }
    ∷ record { template = fixed "/auth/login"; methods = "POST" ∷ []; endpoint = page login }
    ∷ record { template = fixed "/api/fund/topup"; methods = "POST" ∷ []; endpoint = page top_up }
    ∷ record { template = fixed "/api/quotes"; methods = "GET" ∷ []; endpoint = page quotes }
    ∷ record { template = fixed "/api/orders"; methods = "POST" ∷ []; endpoint = page new_order }
    ∷ record {
      template = with_id "/api/orders/";
      methods = "GET" ∷ [];
      endpoint = page order_by_id;
    }
    ∷ record { template = fixed "/api/portfolio"; methods = "GET" ∷ []; endpoint = page portfolio }
    ∷ record { template = fixed "/ws/quotes"; methods = []; endpoint = socket }
    ∷ []

-- What the package documents of the route that it chooses: it is registered, and it fits the path and
-- the method.
abbrev pub OneOf : {A : Type 0} → A → List A → Type 0
OneOf a [] = ⊥
OneOf a (x ∷ xs) = (a ≡ x) ⊎ OneOf a xs

abbrev pub FitsPath : Template → String → Type 0
FitsPath (fixed t) path = path ≡ t
FitsPath (with_id t) path = (id : String) × (path ≡ concat t id)

abbrev pub Match : Type 0
Match = List Route → Request → Option Route

pub record IsMatch (match : Match) : Type 0 where
  pub registered : (rs : List Route) (r : Request) (t : Route) → match rs r ≡ some t → OneOf t rs
  pub path :
      (rs : List Route) (r : Request) (t : Route) → match rs r ≡ some t → FitsPath t.template r.path
  pub method :
      (rs : List Route) (r : Request) (t : Route)
      → match rs r ≡ some t
      → (t.methods ≡ []) ⊎ OneOf r.method t.methods

module _ {R D : Type 0} ⦃num : Number R⦄ (match : Match) (unmatched : Request → Response)
    (redis_up : Bool) (jwt : Jwt) (encode : ErrorResponse → String) (digits : ℕ → String)
    (handlers : Endpoint → HandlerFunc (World D)) where
  unfoldable pub router : HandlerFunc (Redis R × World D)
  router r s = elim (match routes r) [
    | none ↦ (unmatched r, s)
    | some t ↦ serve redis_up jwt encode digits (handlers t.endpoint) r s
  ]
