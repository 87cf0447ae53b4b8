-- ===== src/Server/App/Sequences.antt =====
-- Any sequence of requests.
use micro_coin.Base.{
  ℕ, ◌≡◌, refl, List, [], ◌∷◌, String, Option, some, Option-cases, inl, inr, arith,
}
use micro_coin.Decimal.{Decimal, IsDecimal, IsStorable}
use micro_coin.Models.{
  AuthRequest, AuthResponse, CreateOrderRequest, TopUpRequest, Order, Portfolio,
}
use micro_coin.Database.World.{World, ok, err}
use micro_coin.Database.Accounts.{get_accounts_by_user_id}
use micro_coin.Database.Orders.{get_order_by_id}
use micro_coin.Database.Users.{get_user_by_email}
use micro_coin.Http.{Request, context_value}
use micro_coin.Auth.Tokens.{Jwt}
use micro_coin.Auth.Passwords.{hash_password}
use micro_coin.Auth.Middleware.{user_id_key}
use micro_coin.Ledger.Spec.Invariant.{IsValid}
use micro_coin.Orders.Exchange.{Exchange, get_order}
use micro_coin.Server.Accounts.{decoded, signup_handler, login_handler}
use micro_coin.Server.Pages.{health_handler, get_order_handler, portfolio_handler}
use micro_coin.Server.App.{
  Page, Packages, health, signup, login, top_up, quotes, new_order, order_by_id, portfolio, answer,
  serve_all,
}
use micro_coin.Server.App.Requests.{
  FreshIds, OrderFits, create_user-IsValid, topup_handler-IsValid, create_order_handler-IsValid,
}

module _ {D : Type 0} ⦃dec : Decimal D⦄ ⦃laws : IsDecimal D⦄ where
  signup_handler-IsValid :
      (jwt : Jwt) (now : ℕ → ℕ) (id_key : String → List ℕ → ℕ → ℕ → ℕ → ℕ → Option (List ℕ))
      (read : String → Option AuthRequest) (encode : AuthResponse → String)
      (entropy : ℕ → Option (List ℕ)) (r : Request) (w : World D)
      → FreshIds w
      → IsValid w.tables
      → IsValid (signup_handler jwt now id_key read encode entropy r w).1.tables
  unfolding signup_handler
  signup_handler-IsValid jwt now id_key read encode entropy r w f v =
      elim (Option-cases (decoded read r)) [
        | inl h ↦ rw (signup_handler, h) v
        | inr (req, h) ↦ elim (Option-cases (hash_password id_key entropy req.password)) [
          | inl k ↦ rw (signup_handler, h, k) v
          | inr (err e, k) ↦ rw (signup_handler, h, k) v
          | inr (ok text, k) ↦ rw (signup_handler, h, k) (create_user-IsValid req.email text w f v)
        ]
      ]

  login_leaves :
      (jwt : Jwt) (now : ℕ → ℕ) (id_key : String → List ℕ → ℕ → ℕ → ℕ → ℕ → Option (List ℕ))
      (read : String → Option AuthRequest) (encode : AuthResponse → String) (r : Request)
      (w : World D)
      → (login_handler jwt now id_key read encode r w).1.tables ≡ w.tables
  unfolding login_handler get_user_by_email
  login_leaves jwt now id_key read encode r w = elim (Option-cases (decoded read r)) [
    | inl h ↦ ground arith
    | inr (req, h) ↦ ground arith
  ]

  order_leaves :
      (vars : Request → String) (parse : String → Option ℕ) (encode : Order D → String)
      (r : Request) (w : World D)
      → (get_order_handler vars parse encode r w).1.tables ≡ w.tables
  unfolding get_order_handler get_order get_order_by_id
  order_leaves vars parse encode r w = ground arith

  portfolio_leaves :
      (encode : Portfolio D → String) (r : Request) (w : World D)
      → (portfolio_handler encode r w).1.tables ≡ w.tables
  unfolding portfolio_handler get_accounts_by_user_id
  portfolio_leaves encode r w = ground arith

  health_leaves :
      (encode : String → String → String) (r : Request) (x : Exchange D)
      → (health_handler encode r x).1 ≡ x
  unfolding health_handler
  health_leaves encode r x = refl

  -- What a request needs of the state that it meets.
  abbrev pub Proper : ℕ → Packages D → Page → Request → Exchange D → Type 0
  Proper fuel pk signup r x = FreshIds x.world
  Proper fuel pk top_up r x =
      (body : String) (req : TopUpRequest D)
      → r.body ≡ some body
      → pk.read_top_up body ≡ some req
      → IsStorable req.amount
  Proper fuel pk new_order r x =
      (user : ℕ) (body : String) (req : CreateOrderRequest D)
      → context_value user_id_key r.context ≡ some user
      → r.body ≡ some body
      → pk.read_order body ≡ some req
      → OrderFits fuel user req x
  Proper fuel pk _ r x = Unit

  answer-IsValid :
      (fuel : ℕ) (pk : Packages D) (p : Page) (r : Request) (x : Exchange D)
      → Proper fuel pk p r x
      → IsValid x.world.tables
      → IsValid (answer fuel pk p r x).1.world.tables
  unfolding answer
  answer-IsValid fuel pk health r x q v = rw (health_leaves pk.write_status r x) v
  answer-IsValid fuel pk signup r x q v =
      signup_handler-IsValid pk.jwt pk.now pk.id_key pk.read_auth pk.write_auth pk.entropy r x.world
        q v
  answer-IsValid fuel pk login r x q v =
      rw (login_leaves pk.jwt pk.now pk.id_key pk.read_auth pk.write_auth r x.world) v
  answer-IsValid fuel pk top_up r x q v =
      topup_handler-IsValid pk.jsonb pk.hash pk.print pk.read_top_up pk.write_top_up r x.world q v
  answer-IsValid fuel pk quotes r x q v = v
  answer-IsValid fuel pk new_order r x q v =
      create_order_handler-IsValid pk.jsonb pk.hash pk.print fuel pk.read_order pk.write_created r x
        q v
  answer-IsValid fuel pk order_by_id r x q v =
      rw (order_leaves pk.vars pk.parse_uuid pk.write_order r x.world) v
  answer-IsValid fuel pk portfolio r x q v = rw (portfolio_leaves pk.write_portfolio r x.world) v

  -- Every request of a sequence is proper for the state that it meets.
  abbrev pub AreProper : ℕ → List (Packages D × Page × Request) → Exchange D → Type 0
  AreProper fuel [] x = Unit
  AreProper fuel ((pk, p, r) ∷ rs) x =
      Proper fuel pk p r x × AreProper fuel rs (answer fuel pk p r x).1

  -- From valid tables, any sequence of requests to the handlers, whatever they contain, whichever of
  -- them fail and whatever the packages answer, leaves the tables valid. The amounts of top-ups and
  -- orders must have at most ten decimal places, the trades of an order must be between two users, and
  -- the ids that a signup makes up must be new.
  pub serve_all-IsValid :
      (fuel : ℕ) (rs : List (Packages D × Page × Request)) (x : Exchange D)
      → AreProper fuel rs x
      → IsValid x.world.tables
      → IsValid (serve_all fuel rs x).world.tables
  unfolding serve_all
  serve_all-IsValid fuel [] x q v = v
  serve_all-IsValid fuel ((pk, p, r) ∷ rs) x (q, qs) v =
      serve_all-IsValid fuel rs (answer fuel pk p r x).1 qs (answer-IsValid fuel pk p r x q v)
