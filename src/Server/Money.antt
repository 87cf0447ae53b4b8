-- ===== src/Server/Money.antt =====
-- cmd/monolith/main.go: `topupHandler` and `createOrderHandler`. JSON is read and written by
-- parameters, `print` is the text of an error. A failed reading of JSON is `none`.
pub mod Stored
pub mod Repeat
use Prim.Native.String.{◌++◌ as concat}
use micro_coin.Base.{ℕ, String, Option, none, some}
use micro_coin.Decimal.{Decimal}
use micro_coin.Models.{TopUpRequest, TopUpResponse, CreateOrderRequest, CreateOrderResponse}
use micro_coin.Database.World.{World, Error, ok, err, begin, commit}
use micro_coin.Http.{Request, Response, HandlerFunc, http_error, json_response}
use micro_coin.Auth.Middleware.{user_id_key}
use micro_coin.Idempotency.{Hashing, store_idempotency}
use micro_coin.Idempotency.Handler.{admit, admitted, answered}
use micro_coin.Ledger.Service.{top_up_user}
use micro_coin.Orders.Exchange.{Exchange}
use micro_coin.Orders.Create.{Ending, finished, crashed, endless, create_order}

module _ {D : Type 0} ⦃dec : Decimal D⦄ (jsonb : String → Option String) where
  -- From the marshalling of the response on: the key is stored in a transaction of its own.
  unfoldable pub respond : ℕ → String → String → Option String → World D → Response × World D
  respond user_id key fingerprint none w = (http_error "Failed to marshal response" 500, w)
  respond user_id key fingerprint (some body) w =
      let (begun, w') = begin w in
      elim begun [
        | err e ↦ (http_error "Failed to begin transaction" 500, w')
        | ok tx ↦
            let (stored, w'') = store_idempotency jsonb tx user_id key fingerprint 200 body w' in
            elim stored [
              | err e ↦ (http_error "Failed to store idempotency key" 500, w'')
              | ok tx' ↦
                  let (committed, w''') = commit tx' w'' in
                  elim committed [
                    | err e ↦ (http_error "Failed to commit transaction" 500, w''')
                    | ok u ↦ (json_response body, w''')
                  ]
            ]
      ]

module _ {D : Type 0} ⦃dec : Decimal D⦄ (jsonb : String → Option String) (hash : Hashing)
    (print : Error → String) where
  unfoldable pub topup_handler :
      (String → Option (TopUpRequest D)) → (TopUpResponse D → Option String) → HandlerFunc (World D)
  topup_handler read write r w =
      let (admission, w') = admit hash user_id_key r w in
      elim admission [
        | answered response ↦ (response, w')
        | admitted user_id key body fingerprint ↦ elim (read body) [
          | none ↦ (http_error "Invalid request body" 400, w')
          | some req ↦
              let (result, w'') = top_up_user user_id req.amount w' in
              elim result [
                | err e ↦ (http_error (concat "Failed to top up: " (print e)) 500, w'')
                | ok account ↦
                    respond jsonb user_id key fingerprint
                      (write (record { balance = account.balance_available })) w''
              ]
        ]
      ]

  -- What the handler does with the end of `CreateOrder`. A panic leaves the request without a
  -- response.
  unfoldable pub after_order :
      (CreateOrderResponse D → Option String)
      → ℕ
      → String
      → String
      → Ending (CreateOrderResponse D)
      → Exchange D
      → Ending Response × Exchange D
  unfolding respond
  after_order write user_id key fingerprint crashed x = (crashed, x)
  after_order write user_id key fingerprint endless x = (endless, x)
  after_order write user_id key fingerprint (finished (err e)) x =
      (finished (ok (http_error (concat "Failed to create order: " (print e)) 500)), x)
  after_order write user_id key fingerprint (finished (ok response)) x =
      let (res, w) = respond jsonb user_id key fingerprint (write response) x.world in
      (finished (ok res), record x { world = w })

  unfoldable pub create_order_handler :
      ℕ
      → (String → Option (CreateOrderRequest D))
      → (CreateOrderResponse D → Option String)
      → Request
      → Exchange D
      → Ending Response × Exchange D
  unfolding after_order
  create_order_handler fuel read write r x =
      let (admission, w) = admit hash user_id_key r x.world in
      let x' = record x { world = w } in
      elim admission [
        | answered response ↦ (finished (ok response), x')
        | admitted user_id key body fingerprint ↦ elim (read body) [
          | none ↦ (finished (ok (http_error "Invalid request body" 400)), x')
          | some req ↦
              let (ending, x'') = create_order fuel user_id req x' in
              after_order write user_id key fingerprint ending x''
        ]
      ]
