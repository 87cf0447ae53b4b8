-- ===== src/Server/Pages/Balances.antt =====
-- cmd/monolith/main.go: `portfolioHandler` against the ledger.
use micro_coin.Base.{
  ℕ, suc, ◌≡◌, ◌≢◌, refl, ap, ◌∙◌, false, Bool, Bool-cases, inl, inr, List, [], ◌∷◌, String, some,
  All, arith, ◌==◌,
}
use micro_coin.Decimal.{Decimal}
use micro_coin.Models.{Account, AccountBalance, LedgerEntry, Portfolio, uuid_nil}
use micro_coin.Database.Queries.{insert_row, order_by, rows_where}
use micro_coin.Database.World.{World}
use micro_coin.Database.Accounts.{currency_before, get_accounts_by_user_id}
use micro_coin.Http.{Request, json_response}
use micro_coin.Auth.Middleware.{get_user_id_from_context}
use micro_coin.Ledger.Spec.Invariant.{IsValid, Reconciles, posted}
use micro_coin.Server.Pages.{balance_of, balances_of, portfolio_of, portfolio_handler}

insert_row-All :
    {A : Type 0} (P : A → Type 0) (before : A → A → Bool) (a : A) (xs : List A)
    → P a
    → All P xs
    → All P (insert_row before a xs)
insert_row-All P before a [] p ps = (p, tt)
insert_row-All P before a (b ∷ bs) p (q, qs) = elim (Bool-cases (before b a)) [
  | inl h ↦ rw h (q, insert_row-All P before a bs p qs)
  | inr h ↦ rw h (p, (q, qs))
]

order_by-All :
    {A : Type 0} (P : A → Type 0) (before : A → A → Bool) (xs : List A)
    → All P xs
    → All P (order_by before xs)
order_by-All P before [] ps = tt
order_by-All P before (a ∷ xs) (p, ps) =
    insert_row-All P before a (order_by before xs) p (order_by-All P before xs ps)

module _ {D : Type 0} ⦃dec : Decimal D⦄ where
  -- A balance whose total is read off the ledger.
  abbrev pub ledger_balance : List (LedgerEntry D) → Account D → AccountBalance D
  ledger_balance es a = record (balance_of a) { balance_total = posted a.id es }

  abbrev pub ledger_balances : List (LedgerEntry D) → List (Account D) → List (AccountBalance D)
  ledger_balances es [] = []
  ledger_balances es (a ∷ xs) = ledger_balance es a ∷ ledger_balances es xs

  balances_reconcile :
      (es : List (LedgerEntry D)) (xs : List (Account D))
      → All (λ a. (balance_of a).balance_total ≡ posted a.id es) xs
      → balances_of xs ≡ ledger_balances es xs
  balances_reconcile es [] p = refl
  balances_reconcile es (a ∷ xs) (p, ps) = rw (p, balances_reconcile es xs ps) refl

  -- The rows of a user reconcile.
  totals_of :
      (user : ℕ) (es : List (LedgerEntry D)) (xs : List (Account D))
      → All (λ a. a.user_id ≡ user → a.id ≢ uuid_nil) xs
      → All (Reconciles es) xs
      → All
          (λ a. (balance_of a).balance_total ≡ posted a.id es)
          (rows_where (λ a. a.user_id == user) xs)
  totals_of user es [] own ps = tt
  totals_of user es (a ∷ xs) (mine, own) (p, ps) = elim (Bool-cases (a.user_id == user)) [
    | inl h ↦ rw h (p (mine (ground arith)), totals_of user es xs own ps)
    | inr h ↦ rw h (totals_of user es xs own ps)
  ]

  -- The reference: the portfolio that the ledger's entries give.
  abbrev pub ledger_portfolio : List (LedgerEntry D) → List (Account D) → Portfolio D
  ledger_portfolio es xs = record (portfolio_of xs) { balances = ledger_balances es xs }

  abbrev pub accounts_of : ℕ → World D → List (Account D)
  accounts_of user w =
      order_by (λ a b. currency_before a.currency b.currency)
        (rows_where (λ a. a.user_id == user) w.tables.accounts)

  shown :
      (encode : Portfolio D → String) (r : Request) (w : World D) (user : ℕ)
      → get_user_id_from_context r ≡ some user
      → w.fails w.calls ≡ false
      → portfolio_handler encode r w ≡ (
        json_response (encode (portfolio_of (accounts_of user w))),
        record w { calls = suc w.calls },
      )
  unfolding portfolio_handler get_accounts_by_user_id
  shown encode r w user who answers = ground arith

  -- The portfolio page of an authenticated user shows, while the ledger is valid and the database
  -- answers, what the ledger's entries give: in each of the user's accounts, in the order of the
  -- currencies, the total is the sum of all that was ever posted to the account. The user's accounts
  -- are not the account `uuid.Nil`.
  pub portfolio_handler_reconciles :
      (encode : Portfolio D → String) (r : Request) (w : World D) (user : ℕ)
      → get_user_id_from_context r ≡ some user
      → IsValid w.tables
      → All (λ a. a.user_id ≡ user → a.id ≢ uuid_nil) w.tables.accounts
      → w.fails w.calls ≡ false
      → portfolio_handler encode r w ≡ (
        json_response (encode (ledger_portfolio w.tables.ledger_entries (accounts_of user w))),
        record w { calls = suc w.calls },
      )
  unfolding portfolio_handler get_accounts_by_user_id
  portfolio_handler_reconciles encode r w user who v own answers =
      let es = w.tables.ledger_entries in
      let totals = balances_reconcile es (accounts_of user w) (
        order_by-All (λ a. (balance_of a).balance_total ≡ posted a.id es) _
          (rows_where (λ a. a.user_id == user) w.tables.accounts)
          (totals_of user es w.tables.accounts own v.reconciled)) in
      shown encode r w user who answers
      ∙ ap
          (λ (bs : List (AccountBalance D)). (
            json_response (encode (record (portfolio_of (accounts_of user w)) { balances = bs })),
            record w { calls = suc w.calls },
          ))
          totals
