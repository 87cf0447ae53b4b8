-- ===== src/Idempotency/Tests.antt =====
-- Idempotency keys at a concrete request, with the identity for the hash.
use text.Mathlib.Text.{◌==◌ as str_eq}
use micro_coin.Base.{suc, ◌≡◌, refl, [], ◌∷◌, String, Option, some, if◌then◌else◌}
use micro_coin.Base.Int.{ℤ}
use micro_coin.Decimal.Instance.{int_decimal}
use micro_coin.Models.{IdempotencyKey}
use micro_coin.Database.Tables.{insert_key}
use micro_coin.Database.World.{World, Tx, ok, err, message, commit}
use micro_coin.Ledger.Tests.{world}
use micro_coin.Idempotency.{
  store_idempotency, create_idempotency_key, check_idempotency, get_idempotency_key,
}
use micro_coin.Http.{plain, HandlerFunc, Request}
use micro_coin.Idempotency.Handler.{idempotent_handler, admit}
use micro_coin.Idempotency.Replay.{check_idempotency-store_idempotency}

abbrev key : IdempotencyKey
key = record {
  user_id = 7;
  idem_key = "k";
  request_fingerprint = "print";
  response_code = 201;
  response_body = "done";
  created_at = 0;
}

abbrev tx : Tx ℤ
tx = record { started = 0; statements = [] }

abbrev tx_after : Tx ℤ
tx_after = record tx { statements = insert_key key ∷ [] }

abbrev keep : String → Option String
keep s = some s

check_idempotency-store_idempotency_example :
    (check_idempotency 7 "k" "print" (commit tx_after world).1).0
    ≡ (if str_eq "print" "print" then ok (some key) else err (message "idempotency key mismatch"))
unfolding store_idempotency create_idempotency_key
check_idempotency-store_idempotency_example =
    check_idempotency-store_idempotency keep tx tx_after 7 201 "k" "print" "print" "done" "done"
      world world refl refl refl refl refl refl

abbrev handler : HandlerFunc (World ℤ)
handler r w =
    (record { code = 201; headers = []; body = "done" }, record w { calls = suc (suc w.calls) })

abbrev request : Request
request = record {
  method = "POST";
  path = "/api/fund/topup";
  query = [];
  headers = ("Idempotency-Key", "k" ∷ []) ∷ [];
  body = some "print";
  context = (plain "user_id", 7) ∷ [];
}

abbrev world_with_key : World ℤ
world_with_key = record world { tables = record world.tables { idempotency_keys = key ∷ [] } }

replayed :
    idempotent_handler (record { sum = λ s. s; visit = λ hs. hs }) handler request world_with_key
    ≡ (record { code = 201; headers = []; body = "done" }, record world_with_key { calls = 1 })
unfolding idempotent_handler admit check_idempotency get_idempotency_key
replayed = refl
