-- ===== src/Server/Money/Stored.antt =====
-- cmd/monolith/main.go: what `topupHandler` and `createOrderHandler` store before they answer.
use micro_coin.Base.{
  ℕ, suc, ◌≡◌, refl, String, Option, none, some, Option-cases, inl, inr, arith, find_first, ==_refl,
}
use micro_coin.Base.Text.{str_eq_refl}
use micro_coin.Decimal.{Decimal}
use micro_coin.Models.{IdempotencyKey}
use micro_coin.Database.Tables.{has_key}
use micro_coin.Database.World.{World}
use micro_coin.Http.{json_response}
use micro_coin.Idempotency.{store_idempotency, create_idempotency_key}
use micro_coin.Idempotency.Replay.{found_at_end}
use micro_coin.Server.Money.{respond}

-- A row that replays a body to a request.
pub record Replays (k : IdempotencyKey) (fingerprint kept : String) : Type 0 where
  pub same : k.request_fingerprint ≡ fingerprint
  pub code : k.response_code ≡ 200
  pub body : k.response_body ≡ kept

module _ {D : Type 0} ⦃dec : Decimal D⦄ (jsonb : String → Option String) where
  pub respond_stores :
      (user : ℕ) (key fingerprint : String) (marshalled : Option String) (w : World D)
      → find_first (has_key user key) w.tables.idempotency_keys ≡ none
      → (respond jsonb user key fingerprint marshalled w).0.code ≡ 200
      → (text kept : String) × (k : IdempotencyKey) × ((respond jsonb user key fingerprint
            marshalled w).0
          ≡ json_response text)
        × (marshalled ≡ some text)
        × (jsonb text ≡ some kept)
        × (find_first
              (has_key user key)
              (respond jsonb user key fingerprint marshalled w).1.tables.idempotency_keys
            ≡ some k)
        × Replays k fingerprint kept
  unfolding respond store_idempotency create_idempotency_key
  respond_stores user key fingerprint none w absent h = ground arith
  respond_stores user key fingerprint (some text) w absent h = elim (Option-cases (jsonb text)) [
    | inl none_kept ↦ ground arith
    | inr (kept, takes) ↦
        let k : IdempotencyKey = record {
          user_id = user;
          idem_key = key;
          request_fingerprint = fingerprint;
          response_code = 200;
          response_body = kept;
          created_at = w.clock (suc w.calls);
        } in
        (
          text,
          kept,
          k,
          ground arith,
          refl,
          takes,
          ground (
            arith,
            found_at_end user key k w.tables.idempotency_keys absent,
            str_eq_refl key,
            ==_refl user,
          ),
          record { same = refl; code = refl; body = refl },
        )
  ]
