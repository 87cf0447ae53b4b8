-- ===== src/Server/Money/Repeat.antt =====
-- cmd/monolith/main.go: a top-up that is sent again.
use text.Mathlib.Text.{◌==◌ as str_eq}
use micro_coin.Base.{
  ℕ, suc, ◌≡◌, refl, true, false, List, [], if◌then◌else◌, String, Option, none, some, Option-cases,
  inl, inr, arith, find_first,
}
use micro_coin.Decimal.{Decimal, IsDecimal}
use micro_coin.Database.Tables.{Tables, has_key}
use micro_coin.Models.{TopUpRequest, TopUpResponse}
use micro_coin.Database.World.{World, Error, Result-cases}
use micro_coin.Http.{Request, Response, header_get, context_value, json_response, http_error}
use micro_coin.Auth.Middleware.{user_id_key}
use micro_coin.Idempotency.{Hashing}
use micro_coin.Base.Text.{str_eq_refl}
use micro_coin.Idempotency.Handler.{admit, admitted, answered, fingerprint_of, first_values}
use micro_coin.Idempotency.Visits.{IsVisit, one_critical, generate_fingerprint-IsVisit}
use micro_coin.Idempotency.Replay.{admit_admits, admit_rechecks}
use micro_coin.Ledger.Service.{top_up_user}
use micro_coin.Ledger.Service.TopUp.{top_up_user-Refines}
use micro_coin.Ledger.Spec.{topped_up, Refines-keeps}
use micro_coin.Server.Money.{respond, topup_handler}
use micro_coin.Server.Money.Stored.{respond_stores}

module _ {D : Type 0} ⦃dec : Decimal D⦄ ⦃laws : IsDecimal D⦄ where
  topped_up_keeps :
      (journal now user : ℕ) (x : D) (t t' : Tables D)
      → topped_up journal now user x t ≡ some t'
      → t'.idempotency_keys ≡ t.idempotency_keys
  topped_up_keeps journal now user x t t' h = ground arith

  top_up_user_keeps :
      (user : ℕ) (x : D) (w : World D)
      → (top_up_user user x w).1.tables.idempotency_keys ≡ w.tables.idempotency_keys
  top_up_user_keeps user x w =
      Refines-keeps (λ t. t.idempotency_keys ≡ w.tables.idempotency_keys)
        (topped_up (w.fresh w.ids) (w.clock (suc w.calls)) user x w.tables) w (top_up_user user x w)
        (top_up_user-Refines user x w) refl
        (topped_up_keeps (w.fresh w.ids) (w.clock (suc w.calls)) user x w.tables)

module _ {D : Type 0} ⦃dec : Decimal D⦄ ⦃laws : IsDecimal D⦄ (jsonb : String → Option String)
    (hash : Hashing) (print : Error → String) (read : String → Option (TopUpRequest D))
    (write : TopUpResponse D → Option String) (r : Request) where
  -- A top-up that was admitted and answered with 200 ran to its last step.
  carried_out :
      (w w' : World D) (user : ℕ) (key body fingerprint : String)
      → admit hash user_id_key r w ≡ (admitted user key body fingerprint, w')
      → (topup_handler jsonb hash print read write r w).0.code ≡ 200
      → (w'' : World D) × (marshalled : Option String) × (topup_handler jsonb hash print read write
            r w
          ≡ respond jsonb user key fingerprint marshalled w'')
        × (w''.tables.idempotency_keys ≡ w'.tables.idempotency_keys)
  unfolding topup_handler
  carried_out w w' user key body fingerprint a h = elim (Option-cases (read body)) [
    | inl none_read ↦ ground arith
    | inr (req, read_ok) ↦ elim (Result-cases (top_up_user user req.amount w').0) [
      | inl (e, refused) ↦ ground arith
      | inr (account, done) ↦ (
        (top_up_user user req.amount w').1,
        write (record { balance = account.balance_available }),
        ground arith,
        top_up_user_keeps user req.amount w',
      )
    ]
  ]

  answered_at_once :
      (h : Hashing) (w w' : World D) (response : Response)
      → admit h user_id_key r w ≡ (answered response, w')
      → topup_handler jsonb h print read write r w ≡ (response, w')
  unfolding topup_handler
  answered_at_once h w w' response a = ground arith

  -- A top-up whose key is not stored yet and that is answered with 200, and the same request again,
  -- for which Go visits the headers in another order: if the server answers, no table changes, so the
  -- money is added once. The second reply has the code 200 and the body that the JSONB column kept of
  -- the first reply's if the two orders give the same fingerprint, and the code 409 if they do not. The
  -- request has a user of the authentication, a key and a body.
  pub topup_handler_repeats :
      (w : World D) (user : ℕ) (body : String)
      (visit : List (String × String) → List (String × String))
      → context_value user_id_key r.context ≡ some user
      → str_eq (header_get "Idempotency-Key" r.headers) "" ≡ false
      → r.body ≡ some body
      → find_first (has_key user (header_get "Idempotency-Key" r.headers)) w.tables.idempotency_keys
        ≡ none
      → w.fails w.calls ≡ false
      → (topup_handler jsonb hash print read write r w).0.code ≡ 200
      → (topup_handler jsonb hash print read write r w).1.fails
          (topup_handler jsonb hash print read write r w).1.calls
        ≡ false
      → (text kept : String) × ((topup_handler jsonb hash print read write r w).0
          ≡ json_response text)
        × (jsonb text ≡ some kept)
        × (let w' = (topup_handler jsonb hash print read write r w).1 in
            let hash' = record hash { visit = visit } in
            topup_handler jsonb hash' print read write r w' ≡ (
              if str_eq (fingerprint_of hash r body) (fingerprint_of hash' r body)
                  then record { code = 200; headers = []; body = kept }
                  else http_error "Idempotency key mismatch" 409,
              record w' { calls = suc w'.calls },
            ))
  topup_handler_repeats w user body visit who keyed given absent answers done answers' =
      let key = header_get "Idempotency-Key" r.headers in
      let fingerprint = fingerprint_of hash r body in
      let hash' = record hash { visit = visit } in
      let a = admit_admits hash user_id_key r w user body who keyed given absent answers in
      let (w'', marshalled, run, kept_keys) =
        carried_out w (record w { calls = suc w.calls }) user key body fingerprint a done in
      let absent' : find_first (has_key user key) w''.tables.idempotency_keys ≡ none =
        rw kept_keys absent in
      let (text, kept, k, reply, m, takes, found, replays) =
        respond_stores jsonb user key fingerprint marshalled w'' absent' (rw (← run) done) in
      let w' = (topup_handler jsonb hash print read write r w).1 in
      let found' : find_first (has_key user key) w'.tables.idempotency_keys ≡ some k =
        rw run found in
      let again =
        admit_rechecks hash' user_id_key r w' user body k who keyed given found' answers' in
      let again' = rw (replays.same, replays.code, replays.body) at again in
      (text, kept, rw run reply, takes, answered_at_once hash' w' _ _ again')

  -- As `topup_handler_repeats`, for a request with at most one of the headers Authorization and
  -- Content-Type, where both times every header is visited once: the second reply has the code 200 and
  -- the body that the JSONB column kept of the first reply's, in whatever orders the headers are
  -- visited.
  pub topup_handler_replays :
      (w : World D) (user : ℕ) (body : String)
      (visit : List (String × String) → List (String × String))
      → IsVisit hash.visit
      → IsVisit visit
      → one_critical (first_values r.headers) ≡ true
      → context_value user_id_key r.context ≡ some user
      → str_eq (header_get "Idempotency-Key" r.headers) "" ≡ false
      → r.body ≡ some body
      → find_first (has_key user (header_get "Idempotency-Key" r.headers)) w.tables.idempotency_keys
        ≡ none
      → w.fails w.calls ≡ false
      → (topup_handler jsonb hash print read write r w).0.code ≡ 200
      → (topup_handler jsonb hash print read write r w).1.fails
          (topup_handler jsonb hash print read write r w).1.calls
        ≡ false
      → (text kept : String) × ((topup_handler jsonb hash print read write r w).0
          ≡ json_response text)
        × (jsonb text ≡ some kept)
        × (let w' = (topup_handler jsonb hash print read write r w).1 in
            topup_handler jsonb (record hash { visit = visit }) print read write r w' ≡ (
              record { code = 200; headers = []; body = kept },
              record w' { calls = suc w'.calls },
            ))
  topup_handler_replays w user body visit once once' one who keyed given absent answers done
        answers' =
      let (text, kept, reply, takes, again) =
        topup_handler_repeats w user body visit who keyed given absent answers done answers' in
      let same =
        generate_fingerprint-IsVisit hash visit body (first_values r.headers) once once' one in
      let equal_ = str_eq_refl (fingerprint_of (record hash { visit = visit }) r body) in
      (text, kept, reply, takes, rw (same, equal_) at again)
