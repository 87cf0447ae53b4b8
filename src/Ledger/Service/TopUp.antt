-- ===== src/Ledger/Service/TopUp.antt =====
-- `TopUpUser`.
use micro_coin.Base.{ℕ, suc, ◌≡◌, ◌≢◌, Option, none, some, true, false, arith}
use micro_coin.Decimal.{Decimal, IsDecimal, nought, ◌⊕◌, negate, ◌≺◌, is_zero}
use micro_coin.Decimal.Laws.{group_laws}
use micro_coin.Models.{Account, usd, uuid_nil}
use micro_coin.Database.Tables.{Tables, account_by_id, account_of}
use micro_coin.Database.Rows.{IsKeyed, by_id_of_owner}
use micro_coin.Database.World.{World, Result, ok, err}
use micro_coin.Database.Accounts.{get_account_by_user_id_and_currency, update_account_balance}
use micro_coin.Ledger.Journal.{create_journal}
use micro_coin.Ledger.Service.{top_up_user}
use micro_coin.Ledger.Spec.{topped_up, Refines}

module _ {D : Type 0} ⦃dec : Decimal D⦄ ⦃laws : IsDecimal D⦄ where
  refusal :
      {A : Type 0} (spec : Option (Tables D)) (w : World D) (r : Result A × World D)
      → spec ≡ none
      → Refines spec w r
      → ((a : A) → r.0 ≢ ok a) × (r.1.tables ≡ w.tables)
  refusal spec w (ok a, w') e h = absurd (cc (e, h))
  refusal spec w (err m, w') e h = ((λ a p. cc p), h)

  balanced_pair : (x : D) → is_zero (nought ⊕ x ⊕ negate x) ≡ true
  balanced_pair x =
      let e : nought ⊕ x ⊕ negate x ≡ nought = simp group_laws in
      ground (arith, (laws.cmp-eq (nought ⊕ x ⊕ negate x) nought).1)

  -- `TopUpUser` either fails and changes no table, or leaves exactly the tables of `topped_up`, which
  -- exist when the user has an account in dollars, the account `uuid.Nil` exists and the amount is
  -- positive.
  pub top_up_user-Refines :
      (user : ℕ) (x : D) (w : World D)
      → Refines
          (topped_up (w.fresh w.ids) (w.clock (suc w.calls)) user x w.tables)
          w
          (top_up_user user x w)
  unfolding top_up_user get_account_by_user_id_and_currency update_account_balance create_journal
  top_up_user-Refines user x w = ground (arith, (laws.cmp_swap x nought).0)

  -- Without an account `uuid.Nil` every top-up fails and changes no table.
  pub top_up_user-fails :
      (user : ℕ) (x : D) (w : World D)
      → account_by_id uuid_nil w.tables.accounts ≡ none
      → ((a : Account D) → (top_up_user user x w).0 ≢ ok a)
        × ((top_up_user user x w).1.tables ≡ w.tables)
  top_up_user-fails user x w missing =
      let spec = topped_up (w.fresh w.ids) (w.clock (suc w.calls)) user x w.tables in
      let refused : spec ≡ none = ground arith in
      refusal spec w (top_up_user user x w) refused (top_up_user-Refines user x w)

  -- If no call of the driver fails, account ids are distinct, the user has an account in dollars, the
  -- account `uuid.Nil` exists and the amount is positive, then `TopUpUser` succeeds and returns the
  -- account with the amount added.
  pub top_up_user-succeeds :
      (user : ℕ) (x : D) (w : World D) (a equity : Account D)
      → ((n : ℕ) → w.fails n ≡ false)
      → IsKeyed w.tables.accounts
      → account_of user usd w.tables.accounts ≡ some a
      → account_by_id uuid_nil w.tables.accounts ≡ some equity
      → nought ≺ x
      → (top_up_user user x w).0 ≡ ok (record a { balance_available = a.balance_available ⊕ x })
  unfolding top_up_user get_account_by_user_id_and_currency update_account_balance create_journal
  top_up_user-succeeds user x w a equity up k owned exists pos =
      let n = w.calls in
      ground (
        arith,
        by_id_of_owner user usd w.tables.accounts k owned,
        up n,
        up (suc n),
        up (suc (suc n)),
        up (suc (suc (suc n))),
        up (suc (suc (suc (suc n)))),
        up (suc (suc (suc (suc (suc n))))),
        up (suc (suc (suc (suc (suc (suc n)))))),
        balanced_pair x,
        (laws.cmp_swap x nought).1,
        (laws.cmp-eq x nought).0,
        (laws.cmp-eq nought x).1,
      )
