-- ===== src/Server/Accounts.antt =====
-- cmd/monolith/main.go: `signupHandler` and `loginHandler`. JSON is read and written by parameters;
-- `now n` is the n-th reading of the clock, `entropy` the random bytes, `id_key` is Argon2.
pub mod Login
use micro_coin.Base.{ℕ, List, true, false, String, Option, none, some}
use micro_coin.Decimal.{Decimal}
use micro_coin.Models.{User, AuthRequest, AuthResponse}
use micro_coin.Database.World.{World, ok, err}
use micro_coin.Database.Users.{create_user, get_user_by_email}
use micro_coin.Http.{Request, Response, http_error, json_response}
use micro_coin.Auth.Tokens.{Jwt, generate_tokens}
use micro_coin.Auth.Passwords.{hash_password, verify_password}
use micro_coin.Orders.Create.{Ending, finished, crashed}

module _ (jwt : Jwt) (now : ℕ → ℕ) (encode : AuthResponse → String) where
  -- The tokens of a user, in both handlers.
  unfoldable pub welcome : User → Response
  welcome user = elim (generate_tokens jwt now user.id user.email) [
    | err e ↦ http_error "Failed to generate tokens" 500
    | ok (access_token, refresh_token) ↦
        json_response
          (encode (record { token = access_token; refresh_token = refresh_token; user = user }))
  ]

-- The request as it is decoded from the body.
abbrev pub decoded : (String → Option AuthRequest) → Request → Option AuthRequest
decoded read r = elim r.body [ none ↦ none | some body ↦ read body ]

module _ {D : Type 0} ⦃dec : Decimal D⦄ (jwt : Jwt) (now : ℕ → ℕ)
    (id_key : String → List ℕ → ℕ → ℕ → ℕ → ℕ → Option (List ℕ))
    (read : String → Option AuthRequest) (encode : AuthResponse → String) where
  unfoldable pub signup_handler :
      (ℕ → Option (List ℕ)) → Request → World D → Ending Response × World D
  unfolding welcome
  signup_handler entropy r w = elim (decoded read r) [
    | none ↦ (finished (ok (http_error "Invalid request body" 400)), w)
    | some req ↦ elim (hash_password id_key entropy req.password) [
      | none ↦ (crashed, w)
      | some (err e) ↦ (finished (ok (http_error "Failed to hash password" 500)), w)
      | some (ok password_hash) ↦
          let (created, w') = create_user req.email password_hash w in
          (
            elim created [
              | err e ↦ finished (ok (http_error "Failed to create user" 500))
              | ok user ↦ finished (ok (welcome jwt now encode user))
            ],
            w',
          )
    ]
  ]

  unfoldable pub login_handler : Request → World D → Ending Response × World D
  unfolding welcome
  login_handler r w = elim (decoded read r) [
    | none ↦ (finished (ok (http_error "Invalid request body" 400)), w)
    | some req ↦
        let (found, w') = get_user_by_email req.email w in
        (
          elim found [
            | err e ↦ finished (ok (http_error "Invalid credentials" 401))
            | ok user ↦ elim (verify_password id_key req.password user.password_hash) [
              | none ↦ crashed
              | some (ok true) ↦ finished (ok (welcome jwt now encode user))
              | some (ok false) ↦ finished (ok (http_error "Invalid credentials" 401))
              | some (err e) ↦ finished (ok (http_error "Invalid credentials" 401))
            ]
          ],
          w',
        )
  ]
