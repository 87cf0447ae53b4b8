-- ===== src/Server/Accounts/Login.antt =====
-- A login after the signup of the same account.
use micro_coin.Base.{
  ℕ, suc, ◌≡◌, refl, List, true, false, String, Bool, Option, none, some, All, length, find_first,
  if◌then◌else◌,
}
use micro_coin.Decimal.{Decimal}
use micro_coin.Models.{User, AuthRequest, AuthResponse}
use micro_coin.Database.World.{World, ok}
use micro_coin.Database.Users.{create_user, get_user_by_email, has_email, new_user}
use micro_coin.Database.Users.Signup.{created, found}
use micro_coin.Http.{Request, http_error}
use micro_coin.Auth.Tokens.{Jwt}
use micro_coin.Auth.Base64.RoundTrip.{IsByte}
use micro_coin.Auth.Passwords.{
  hash_password, verify_password, same_bytes, salt_length, key_length, iterations, memory,
  parallelism,
}
use micro_coin.Auth.Passwords.Verify.{verify_password-hash_password}
use micro_coin.Orders.Create.{finished}
use micro_coin.Server.Accounts.{decoded, welcome, signup_handler, login_handler}

module _ {D : Type 0} ⦃dec : Decimal D⦄ (jwt : Jwt) (now : ℕ → ℕ)
    (id_key : String → List ℕ → ℕ → ℕ → ℕ → ℕ → Option (List ℕ))
    (read : String → Option AuthRequest) (encode : AuthResponse → String) where
  -- what a signup answers
  signed_up :
      (entropy : ℕ → Option (List ℕ)) (r : Request) (req : AuthRequest) (text : String) (u : User)
      (w : World D)
      → decoded read r ≡ some req
      → hash_password id_key entropy req.password ≡ some (ok text)
      → (create_user req.email text w).0 ≡ ok u
      → signup_handler jwt now id_key read encode entropy r w
        ≡ (finished (ok (welcome jwt now encode u)), (create_user req.email text w).1)
  unfolding signup_handler
  signed_up entropy r req text u w hr hp hc = rw (signup_handler, hr, hp, hc) refl

  -- what a login answers
  logged_in :
      (r : Request) (req : AuthRequest) (u : User) (b : Bool) (w : World D)
      → decoded read r ≡ some req
      → (get_user_by_email req.email w).0 ≡ ok u
      → verify_password id_key req.password u.password_hash ≡ some (ok b)
      → (login_handler jwt now id_key read encode r w).0
        ≡ finished
            (ok (if b then welcome jwt now encode u else http_error "Invalid credentials" 401))
  unfolding login_handler
  logged_in r req u true w hr hu hp = rw (login_handler, hr, hu, hp) refl
  logged_in r req u false w hr hu hp = rw (login_handler, hr, hu, hp) refl

module _ {D : Type 0} ⦃dec : Decimal D⦄ (jwt : Jwt) (now now' : ℕ → ℕ)
    (id_key : String → List ℕ → ℕ → ℕ → ℕ → ℕ → Option (List ℕ))
    (read : String → Option AuthRequest) (encode : AuthResponse → String) where
  -- A signup with an email that is free, while the server answers, and a login with this email after it,
  -- each decoded from its body: the signup gives the response for the new user, with its tokens (or 500
  -- if these are not signed). So does the login if the keys that Argon2 makes of the two passwords are
  -- the same, as they are for the same password, and else it gives 401. The salt and the stored key
  -- are bytes, and the key has the length that was asked for.
  pub login_handler-signup_handler :
      (entropy : ℕ → Option (List ℕ)) (r r' : Request) (req attempt : AuthRequest)
      (salt hash key : List ℕ) (w : World D)
      → decoded read r ≡ some req
      → decoded read r' ≡ some attempt
      → attempt.email ≡ req.email
      → entropy salt_length ≡ some salt
      → id_key req.password salt iterations memory parallelism key_length ≡ some hash
      → id_key attempt.password salt iterations memory parallelism key_length ≡ some key
      → All IsByte salt
      → All IsByte hash
      → length hash ≡ key_length
      → find_first (has_email req.email) w.tables.users ≡ none
      → w.fails w.calls ≡ false
      → w.fails (suc w.calls) ≡ false
      → (u : User) × (u.email ≡ req.email)
        × (let (response, w') = signup_handler jwt now id_key read encode entropy r w in
            (response ≡ finished (ok (welcome jwt now encode u)))
            × ((login_handler jwt now' id_key read encode r' w').0
                ≡ finished (
                    ok (
                      if same_bytes hash key
                      then welcome jwt now' encode u
                      else http_error "Invalid credentials" 401))))
  login_handler-signup_handler entropy r r' req attempt salt hash key w hr hr' same es eh ek hs hh
        size free up up' =
      let (text, stored, own, other) =
        verify_password-hash_password id_key entropy req.password attempt.password salt hash key es
          eh ek hs hh size in
      let u = new_user (record w { calls = suc w.calls }) req.email text in
      let made : (create_user req.email text w).0 ≡ ok u = created req.email text w free up in
      let answer = signed_up jwt now id_key read encode entropy r req text u w hr stored made in
      let row : (get_user_by_email attempt.email (create_user req.email text w).1).0 ≡ ok u =
        rw same (found req.email text w u made up') in
      (
        u,
        refl,
        (
          rw answer refl,
          rw answer (
              logged_in jwt now' id_key read encode r' attempt u (same_bytes hash key)
                (create_user req.email text w).1 hr' row other),
        ),
      )
