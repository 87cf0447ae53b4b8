-- ===== src/Server/Tests.antt =====
-- The stack and the handlers at concrete requests, with texts in the place of JSON.
use text.Mathlib.Text.{◌==◌ as str_eq}
use micro_coin.Base.{
  ℕ, suc, ◌+◌, arith, ◌≡◌, refl, List, true, false, [], ◌∷◌, String, Option, some, none,
  if◌then◌else◌,
}
use micro_coin.Base.Int.{ℤ, pos, ◌+ℤ◌, ◌-ℤ◌}
use micro_coin.Decimal.Instance.{int_decimal, int_IsDecimal}
use micro_coin.Models.{
  Quote, btc_usd, eth_usd, ErrorResponse, Portfolio, User, AuthRequest, AuthResponse, TopUpRequest,
}
use micro_coin.Database.World.{World, ok, err, driver}
use micro_coin.Http.{Request, HandlerFunc, json_response, http_error}
use micro_coin.Ledger.Tests.{world, tables-IsValid}
use micro_coin.Auth.Middleware.{user_id_key}
use micro_coin.Auth.Tests.{request}
use micro_coin.Rate.Tests.{whole_numbers}
use micro_coin.Rate.Limiter.{Redis, replied}
use micro_coin.Database.Accounts.{get_account_by_user_id_and_currency, update_account_balance}
use micro_coin.Ledger.Journal.{create_journal}
use micro_coin.Ledger.Service.{top_up_user}
use micro_coin.Idempotency.{Hashing, store_idempotency}
use micro_coin.Idempotency.Handler.{admit, fingerprint_of}
use micro_coin.Idempotency.Visits.{IsVisit}
use mathlib.Core.List.Permᴰ.{nil, cons, swap}
use micro_coin.Auth.Tokens.{Jwt}
use micro_coin.Auth.Passwords.{same_bytes}
use micro_coin.Auth.Passwords.Tests.{entropy, key, other_key, random_bytes, two_keys}
use micro_coin.Orders.Create.{finished}
use micro_coin.Server.Accounts.{signup_handler, login_handler, welcome}
use micro_coin.Server.Accounts.Login.{login_handler-signup_handler}
use micro_coin.Quotes.{update_quote, subscribe, unsubscribe, QuoteService, new_quote_service}
use micro_coin.Quotes.Calls.{subscribing, unsubscribing, updating, new_quote_service-IsSound}
use micro_coin.Server.Socket.{
  Event, other, chosen, serving, hung_up, select_loop, websocket_quotes_handler,
}
use micro_coin.Server.Socket.Closing.{IsClean, websocket_quotes_handler-IsClean}
use micro_coin.Server.Money.{topup_handler, respond}
use micro_coin.Decimal.{equal}
use micro_coin.Auth.Middleware.{get_user_id_from_context}
use micro_coin.Server.Pages.{portfolio_handler}
use micro_coin.Server.Pages.Balances.{ledger_portfolio, accounts_of, portfolio_handler_reconciles}
use micro_coin.Server.Money.Repeat.{topup_handler_repeats, topup_handler_replays}

abbrev pub redis : Redis ℕ
redis = record { bucket_of = λ u. none; clock = 0; now = 500000; reply = λ n. replied; calls = 0 }

abbrev pub page : HandlerFunc (World ℤ)
page r w = (record { code = 200; headers = []; body = "page" }, w)

abbrev pub encode : ErrorResponse → String
encode e = e.error.message

abbrev pub digits : ℕ → String
digits n = "n"

-- A top-up of 30 by user 7.
abbrev top_up : Request
top_up = record request {
  method = "POST";
  path = "/api/fund/topup";
  headers = ("Authorization", "t" ∷ []) ∷ ("Idempotency-Key", "k" ∷ []) ∷ [];
  body = some "30";
  context = (user_id_key, 7) ∷ [];
}

abbrev read : String → Option (TopUpRequest ℤ)
read s = if str_eq s "30" then some (record { amount = pos 30 }) else none

abbrev in_order : Hashing
in_order = record { sum = λ s. s; visit = λ hs. hs }

abbrev handler : Hashing → HandlerFunc (World ℤ)
handler hash = topup_handler (λ s. some s) hash (λ e. "error") read (λ b. some "balance")

-- The request with both headers that take part in the fingerprint.
abbrev typed_top_up : Request
typed_top_up = record top_up {
  headers =
      ("Authorization", "t" ∷ []) ∷ ("Content-Type", "j" ∷ []) ∷ ("Idempotency-Key", "k" ∷ []) ∷ [];
}

-- A visit of the second header before the first.
abbrev exchanged : List (String × String) → List (String × String)
exchanged [] = []
exchanged (g ∷ []) = g ∷ []
exchanged (g ∷ h ∷ hs) = h ∷ g ∷ hs

topup_handler_repeats_example :
    (text kept : String) × ((handler in_order typed_top_up world).0 ≡ json_response text)
    × (some text ≡ some kept)
    × (let w' = (handler in_order typed_top_up world).1 in
        let hash' = record in_order { visit = exchanged } in
        handler hash' typed_top_up w' ≡ (
          if str_eq
                (fingerprint_of in_order typed_top_up "30")
                (fingerprint_of hash' typed_top_up "30")
              then record { code = 200; headers = []; body = kept }
              else http_error "Idempotency key mismatch" 409,
          record w' { calls = suc w'.calls },
        ))
unfolding topup_handler respond admit top_up_user get_account_by_user_id_and_currency create_journal
    ◌+ℤ◌ ◌-ℤ◌ update_account_balance store_idempotency
topup_handler_repeats_example =
    topup_handler_repeats (λ s. some s) in_order (λ e. "error") read (λ b. some "balance")
      typed_top_up world 7 "30" exchanged refl refl refl refl refl refl refl

-- The two orders give two fingerprints.
prints_differ :
    str_eq
      (fingerprint_of in_order typed_top_up "30")
      (fingerprint_of (record in_order { visit = exchanged }) typed_top_up "30")
    ≡ false
prints_differ = refl

exchanged-IsVisit : IsVisit exchanged
exchanged-IsVisit [] = nil
exchanged-IsVisit (g ∷ []) = cons refl nil
exchanged-IsVisit (g ∷ h ∷ hs) = swap refl refl

in_order-IsVisit : IsVisit (λ hs. hs)
in_order-IsVisit [] = nil
in_order-IsVisit (h ∷ hs) = cons refl (in_order-IsVisit hs)

topup_handler_replays_example :
    (text kept : String) × ((handler in_order top_up world).0 ≡ json_response text)
    × (some text ≡ some kept)
    × (let w' = (handler in_order top_up world).1 in
        handler (record in_order { visit = exchanged }) top_up w'
        ≡ (record { code = 200; headers = []; body = kept }, record w' { calls = suc w'.calls }))
unfolding topup_handler respond admit top_up_user get_account_by_user_id_and_currency create_journal
    ◌+ℤ◌ ◌-ℤ◌ update_account_balance store_idempotency
topup_handler_replays_example =
    topup_handler_replays (λ s. some s) in_order (λ e. "error") read (λ b. some "balance") top_up
      world 7 "30" exchanged in_order-IsVisit exchanged-IsVisit refl refl refl refl refl refl refl
      refl

abbrev show : Portfolio ℤ → String
show p = elim p.balances [
  | [] ↦ "none"
  | b ∷ bs ↦ if equal b.balance_total (pos 120) then "120" else "?"
]

abbrev portfolio_page : Request
portfolio_page = record request { context = (user_id_key, 7) ∷ [] }

portfolio_handler_reconciles_example : portfolio_handler show portfolio_page world ≡ (
  json_response (show (ledger_portfolio world.tables.ledger_entries (accounts_of 7 world))),
  record world { calls = 1 },
)
unfolding get_user_id_from_context
portfolio_handler_reconciles_example =
    portfolio_handler_reconciles show portfolio_page world 7 refl tables-IsValid
      ((λ e k. cc), ((λ e k. cc), ((λ e k. cc), ((λ e k. cc), ((λ e k. cc), tt))))) refl

-- A jwt that signs everything alike.
abbrev stamp : Jwt
stamp = record { signed_string = λ m c key. ok c.email; parse_with_claims = λ t s f. err driver }

abbrev read_credentials : String → Option AuthRequest
read_credentials s =
    some (record { email = "a@b.c"; password = if str_eq s "good" then "secret" else "guess" })

abbrev signup : Request
signup = record request { method = "POST"; path = "/auth/signup"; body = some "good" }

abbrev login : Request
login = record request { method = "POST"; path = "/auth/login"; body = some "bad" }

abbrev show_login : AuthResponse → String
show_login a = a.token

login_handler-signup_handler_example :
    (u : User) × (u.email ≡ "a@b.c")
    × (let (response, w') =
          signup_handler stamp (λ n. n) two_keys read_credentials show_login entropy signup world in
        (response ≡ finished (ok (welcome stamp (λ n. n) show_login u)))
        × ((login_handler stamp (λ n. n + 9) two_keys read_credentials show_login login w').0
            ≡ finished (
                ok (
                  if same_bytes key other_key
                  then welcome stamp (λ n. n + 9) show_login u
                  else http_error "Invalid credentials" 401))))
login_handler-signup_handler_example =
    login_handler-signup_handler stamp (λ n. n) (λ n. n + 9) two_keys read_credentials show_login
      entropy signup login (record { email = "a@b.c"; password = "secret" })
      (record { email = "a@b.c"; password = "guess" }) random_bytes key other_key world refl refl
      refl refl refl refl (omega arith) (omega arith) refl refl refl refl

abbrev quote : Quote ℤ
quote = record { symbol = eth_usd; bid = pos 9; ask = pos 10; ts = 1 }

-- Two quotes come, one is written, and the write of the second fails.
abbrev events : List (Event ℤ)
events =
    other (updating quote)
    ∷ chosen true true
    ∷ chosen false true
    ∷ other (subscribing btc_usd)
    ∷ other (updating quote)
    ∷ chosen false false
    ∷ []

connection_ends :
    (s : QuoteService ℤ) × (websocket_quotes_handler true events new_quote_service
      ≡ hung_up (some quote ∷ []) s)
unfolding websocket_quotes_handler select_loop update_quote subscribe unsubscribe
connection_ends = (_, refl)

-- Another goroutine closes the BTC channel, and a nil is written.
nil_is_written :
    (s : QuoteService ℤ) × (websocket_quotes_handler true
        (other (unsubscribing btc_usd 0) ∷ chosen true true ∷ [])
        new_quote_service
      ≡ serving (none ∷ []) s)
unfolding websocket_quotes_handler select_loop subscribe unsubscribe
nil_is_written = (_, refl)

websocket_quotes_handler-IsClean_example :
    IsClean 0 1 (websocket_quotes_handler true events new_quote_service)
websocket_quotes_handler-IsClean_example =
    websocket_quotes_handler-IsClean true events new_quote_service new_quote_service-IsSound
