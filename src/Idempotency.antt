-- ===== src/Idempotency.antt =====
-- internal/idempotency/idempotency.go: the repository of idempotency keys and the service over it.
-- SHA-256 and the order of Go's `range` over a map are a parameter, `Hashing`; what a JSONB column keeps of a body, if it takes it, is the parameter `jsonb`.
pub mod Handler
pub mod Replay
pub mod Visits
mod Tests
use Prim.Native.String.{◌++◌ as concat}
use text.Mathlib.Text.{◌==◌ as str_eq}
use micro_coin.Base.{
  ℕ, Bool, true, false, ◌||◌, List, [], ◌∷◌, String, Option, none, some, if◌then◌else◌, find_first,
}
use micro_coin.Decimal.{Decimal}
use micro_coin.Models.{IdempotencyKey}
use micro_coin.Database.Tables.{insert_key, has_key}
use micro_coin.Database.World.{
  World, Action, Tx, ok, err, driver, message, ◌>>=◌, ◌>>◌, pure, throw, wrapped, call_driver, gets,
  exec,
}

module _ {D : Type 0} where
  -- No row is `none`, and no error.
  unfoldable pub get_idempotency_key : ℕ → String → Action D (Option IdempotencyKey)
  get_idempotency_key user_id key = do
    wrapped "failed to get idempotency key" call_driver
    gets (λ w. find_first (has_key user_id key) w.tables.idempotency_keys)

  unfoldable pub check_idempotency : ℕ → String → String → Action D (Option IdempotencyKey)
  unfolding get_idempotency_key
  check_idempotency user_id key fingerprint = do
    found ← get_idempotency_key user_id key
    elim found [
      | none ↦ pure none
      | some k ↦
          if str_eq k.request_fingerprint fingerprint
          then pure (some k)
          else throw (message "idempotency key mismatch")
    ]

module _ {D : Type 0} ⦃dec : Decimal D⦄ (jsonb : String → Option String) where
  unfoldable pub create_idempotency_key : Tx D → IdempotencyKey → Action D (Tx D)
  create_idempotency_key tx k =
      wrapped "failed to create idempotency key" (elim (jsonb k.response_body) [
        | none ↦ call_driver >> throw driver
        | some body ↦ exec tx (insert_key (record k { response_body = body }))
      ])

  -- The column `created_at` is the database's.
  unfoldable pub store_idempotency : Tx D → ℕ → String → String → ℕ → String → Action D (Tx D)
  unfolding create_idempotency_key
  store_idempotency tx user_id key fingerprint response_code response_body =
      create_idempotency_key tx (record {
        user_id = user_id;
        idem_key = key;
        request_fingerprint = fingerprint;
        response_code = response_code;
        response_body = response_body;
        created_at = 0;
      })

-- SHA-256 in hexadecimal, and the order in which a `range` over the map of the headers visits them,
-- which Go chooses anew for each call of `GenerateFingerprint`.
pub record Hashing : Type 0 where
  pub sum : String → String
  pub visit : List (String × String) → List (String × String)

abbrev pub is_critical : String → Bool
is_critical key = str_eq key "Authorization" || str_eq key "Content-Type"

abbrev pub critical : List (String × String) → String → String
critical [] data_ = data_
critical ((key, value) ∷ rest) data_ =
    critical rest (if is_critical key then concat data_ (concat key (concat ":" value)) else data_)

abbrev pub generate_fingerprint : Hashing → String → List (String × String) → String
generate_fingerprint hash body headers = hash.sum (critical (hash.visit headers) body)
