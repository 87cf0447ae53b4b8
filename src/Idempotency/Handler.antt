-- ===== src/Idempotency/Handler.antt =====
-- internal/idempotency/idempotency.go: `IdempotentHandler`. The handlers of cmd/monolith/main.go for
-- a top-up and for an order begin in the same way, with the other key for the user.
use text.Mathlib.Text.{◌==◌ as str_eq}
use micro_coin.Base.{ℕ, List, [], ◌∷◌, String, none, some, if◌then◌else◌}
use micro_coin.Database.World.{World, ok, err}
use micro_coin.Http.{
  ContextKey, plain, Request, Response, HandlerFunc, header_get, context_value, http_error,
}
use micro_coin.Idempotency.{Hashing, check_idempotency, generate_fingerprint}

-- A request is answered at once, or goes on with the user, the key, the body and the fingerprint.
pub data Admission : Type 0 where
  answered : Response → Admission
  admitted : ℕ → String → String → String → Admission

abbrev pub first_values : List (String × List String) → List (String × String)
first_values [] = []
first_values ((key, []) ∷ rest) = first_values rest
first_values ((key, value ∷ values) ∷ rest) = (key, value) ∷ first_values rest

module _ (hash : Hashing) where
  -- The fingerprint of a request whose body has been read.
  abbrev pub fingerprint_of : Request → String → String
  fingerprint_of r body = generate_fingerprint hash body (first_values r.headers)

  unfoldable pub admit : {D : Type 0} → ContextKey → Request → World D → Admission × World D
  unfolding check_idempotency
  admit user_key r w = elim (context_value user_key r.context) [
    | none ↦ (answered (http_error "User not authenticated" 401), w)
    | some user_id ↦
        let key = header_get "Idempotency-Key" r.headers in
        if str_eq key ""
        then (answered (http_error "Idempotency-Key header required" 400), w)
        else elim r.body [
          | none ↦ (answered (http_error "Failed to read request body" 400), w)
          | some body ↦
              let print = fingerprint_of r body in
              let (result, w') = check_idempotency user_id key print w in
              (
                elim result [
                  | err e ↦ answered (http_error "Idempotency key mismatch" 409)
                  | ok (some k) ↦
                      answered
                        (record { code = k.response_code; headers = []; body = k.response_body })
                  | ok none ↦ admitted user_id key body print
                ],
                w',
              )
        ]
  ]

  -- The wrapped handler writes to a recorder, of which the code and the body are passed on, and
  -- nothing is stored.
  unfoldable pub idempotent_handler : {D : Type 0} → HandlerFunc (World D) → HandlerFunc (World D)
  unfolding admit
  idempotent_handler handler r w =
      let (admission, w') = admit (plain "user_id") r w in
      elim admission [
        | answered response ↦ (response, w')
        | admitted user_id key body print ↦
            let (recorded, w'') = handler r w' in
            (record { code = recorded.code; headers = []; body = recorded.body }, w'')
      ]
