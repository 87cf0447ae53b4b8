-- ===== src/Idempotency/Replay.antt =====
-- What is stored, found and replayed under an idempotency key.
use text.Mathlib.Text.{◌==◌ as str_eq}
use micro_coin.Base.Text.{str_eq_refl}
use micro_coin.Base.{
  ℕ, suc, ◌≡◌, true, false, Bool-cases, inl, inr, List, [], ◌∷◌, ◌++◌, String, Option, none, some,
  arith, find_first, if◌then◌else◌, ==_refl,
}
use micro_coin.Decimal.{Decimal}
use micro_coin.Models.{IdempotencyKey}
use micro_coin.Database.Tables.{has_key}
use micro_coin.Database.World.{World, Tx, ok, err, message, commit}
use micro_coin.Idempotency.{
  Hashing, check_idempotency, store_idempotency, create_idempotency_key, get_idempotency_key,
}
use micro_coin.Http.{ContextKey, plain, HandlerFunc, Request, header_get, context_value, http_error}
use micro_coin.Idempotency.Handler.{admit, admitted, answered, idempotent_handler, fingerprint_of}

pub found_at_end :
    (user : ℕ) (key : String) (k : IdempotencyKey) (ks : List IdempotencyKey)
    → find_first (has_key user key) ks ≡ none
    → has_key user key k ≡ true
    → find_first (has_key user key) (ks ++ k ∷ []) ≡ some k
found_at_end user key k [] h e = ground arith
found_at_end user key k (j ∷ ks) h e = ground (arith, found_at_end user key k ks)

module _ {D : Type 0} ⦃dec : Decimal D⦄ (jsonb : String → Option String) where
  -- Once a response has been stored under a new key, alone in its transaction, and committed, a check
  -- of the key to which the server answers finds it, with the body that the column keeps, if the
  -- fingerprint is the stored one, and reports a mismatch if it is another.
  pub check_idempotency-store_idempotency :
      (tx tx' : Tx D) (user code : ℕ) (key print print' body kept : String) (w w' : World D)
      → tx.statements ≡ []
      → jsonb body ≡ some kept
      → find_first (has_key user key) w'.tables.idempotency_keys ≡ none
      → (store_idempotency jsonb tx user key print code body w).0 ≡ ok tx'
      → (commit tx' w').0 ≡ ok tt
      → w'.fails (suc w'.calls) ≡ false
      → (check_idempotency user key print' (commit tx' w').1).0 ≡ (
          if str_eq print print'
          then ok (
              some (record {
                user_id = user;
                idem_key = key;
                request_fingerprint = print;
                response_code = code;
                response_body = kept;
                created_at = tx'.started;
              }))
          else err (message "idempotency key mismatch"))
  unfolding store_idempotency create_idempotency_key check_idempotency get_idempotency_key
  check_idempotency-store_idempotency tx tx' user code key print print' body kept w w' new takes
        absent stored done answers =
      let k : IdempotencyKey = record {
        user_id = user;
        idem_key = key;
        request_fingerprint = print;
        response_code = code;
        response_body = kept;
        created_at = tx'.started;
      } in
      ground (
        arith,
        found_at_end user key k w'.tables.idempotency_keys absent,
        str_eq_refl key,
        ==_refl user,
      )

module _ {D : Type 0} (hash : Hashing) (user_key : ContextKey) (r : Request) where
  pub admit_replays :
      (w : World D) (user : ℕ) (body : String) (k : IdempotencyKey)
      → context_value user_key r.context ≡ some user
      → str_eq (header_get "Idempotency-Key" r.headers) "" ≡ false
      → r.body ≡ some body
      → find_first (has_key user (header_get "Idempotency-Key" r.headers)) w.tables.idempotency_keys
        ≡ some k
      → k.request_fingerprint ≡ fingerprint_of hash r body
      → w.fails w.calls ≡ false
      → admit hash user_key r w ≡ (
        answered (record { code = k.response_code; headers = []; body = k.response_body }),
        record w { calls = suc w.calls },
      )
  unfolding admit check_idempotency get_idempotency_key
  admit_replays w user body k who key read found same answers =
      ground (arith, str_eq_refl (fingerprint_of hash r body))

  -- The key is stored: its response if the fingerprint is the stored one, else a 409.
  pub admit_rechecks :
      (w : World D) (user : ℕ) (body : String) (k : IdempotencyKey)
      → context_value user_key r.context ≡ some user
      → str_eq (header_get "Idempotency-Key" r.headers) "" ≡ false
      → r.body ≡ some body
      → find_first (has_key user (header_get "Idempotency-Key" r.headers)) w.tables.idempotency_keys
        ≡ some k
      → w.fails w.calls ≡ false
      → admit hash user_key r w ≡ (
        answered (
            if str_eq k.request_fingerprint (fingerprint_of hash r body)
            then record { code = k.response_code; headers = []; body = k.response_body }
            else http_error "Idempotency key mismatch" 409),
        record w { calls = suc w.calls },
      )
  unfolding admit check_idempotency get_idempotency_key
  admit_rechecks w user body k who key read found answers =
      elim (Bool-cases (str_eq k.request_fingerprint (fingerprint_of hash r body))) [
        | inl e ↦ ground (arith, e)
        | inr e ↦ ground (arith, e)
      ]

  pub admit_admits :
      (w : World D) (user : ℕ) (body : String)
      → context_value user_key r.context ≡ some user
      → str_eq (header_get "Idempotency-Key" r.headers) "" ≡ false
      → r.body ≡ some body
      → find_first (has_key user (header_get "Idempotency-Key" r.headers)) w.tables.idempotency_keys
        ≡ none
      → w.fails w.calls ≡ false
      → admit hash user_key r w ≡ (
        admitted user (header_get "Idempotency-Key" r.headers) body (fingerprint_of hash r body),
        record w { calls = suc w.calls },
      )
  unfolding admit check_idempotency get_idempotency_key
  admit_admits w user body who key read absent answers = ground arith

module _ {D : Type 0} (hash : Hashing) (handler : HandlerFunc (World D)) (r : Request) where
  -- A request that carries its user under the string "user_id", with a key and a body, whose key is
  -- stored with its fingerprint, is answered with the stored response if the server answers, and all
  -- that changes is the number of calls of the driver, so the wrapped handler does not run.
  pub idempotent_handler_replays :
      (w : World D) (user : ℕ) (body : String) (k : IdempotencyKey)
      → context_value (plain "user_id") r.context ≡ some user
      → str_eq (header_get "Idempotency-Key" r.headers) "" ≡ false
      → r.body ≡ some body
      → find_first (has_key user (header_get "Idempotency-Key" r.headers)) w.tables.idempotency_keys
        ≡ some k
      → k.request_fingerprint ≡ fingerprint_of hash r body
      → w.fails w.calls ≡ false
      → idempotent_handler hash handler r w ≡ (
        record { code = k.response_code; headers = []; body = k.response_body },
        record w { calls = suc w.calls },
      )
  unfolding idempotent_handler
  idempotent_handler_replays w user body k who key read found same answers =
      ground (arith, admit_replays hash (plain "user_id") r w user body k)

  -- A request that carries its user under the string "user_id", with a key and a body, whose key is
  -- not stored, runs the wrapped handler if the server answers; and if the wrapped handler changes
  -- neither the stored keys nor which calls of the driver fail, the same request sent again runs it
  -- again.
  pub idempotent_handler_repeats :
      (w : World D) (user : ℕ) (body : String)
      → context_value (plain "user_id") r.context ≡ some user
      → str_eq (header_get "Idempotency-Key" r.headers) "" ≡ false
      → r.body ≡ some body
      → find_first (has_key user (header_get "Idempotency-Key" r.headers)) w.tables.idempotency_keys
        ≡ none
      → ((n : ℕ) → w.fails n ≡ false)
      → ((v : World D) → (handler r v).1.tables.idempotency_keys ≡ v.tables.idempotency_keys)
      → ((v : World D) → (handler r v).1.fails ≡ v.fails)
      → let first = handler r (record w { calls = suc w.calls }) in
        ((idempotent_handler hash handler r w).1 ≡ first.1)
        × ((idempotent_handler hash handler r first.1).1
            ≡ (handler r (record (first.1) { calls = suc first.1.calls })).1)
  unfolding idempotent_handler
  idempotent_handler_repeats w user body who key read absent up keeps same =
      let v = record w { calls = suc w.calls } in
      let v' = (handler r v).1 in
      ground (
        arith,
        up w.calls,
        up v'.calls,
        keeps v,
        same v,
        admit_admits hash (plain "user_id") r w user body,
        admit_admits hash (plain "user_id") r v' user body,
      )
