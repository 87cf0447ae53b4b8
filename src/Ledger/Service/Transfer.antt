-- ===== src/Ledger/Service/Transfer.antt =====
-- `TransferFunds`.
use micro_coin.Base.{
  Option-cases, inl, inr, refl, ap, [], Option, ℕ, suc, ◌≡◌, ◌≢◌, none, some, true, false, arith,
  String,
}
use micro_coin.Decimal.{
  Decimal, IsDecimal, nought, ◌⊕◌, ◌⊖◌, negate, is_zero, less_than, less_than_or_equal,
}
use micro_coin.Decimal.Laws.{group_laws}
use micro_coin.Models.{Account, Currency}
use micro_coin.Database.Tables.{Tables, account_by_id, with_balance, set_balance}
use micro_coin.Database.Rows.{account_by_id-set_balance}
use micro_coin.Database.World.{World, Tx, ok, message, fail_if, wrapped, begin, ◌>>=◌}
use micro_coin.Database.Accounts.{get_account_by_id, update_account_balance}
use micro_coin.Ledger.Journal.{create_journal, entry_of}
use micro_coin.Ledger.Service.{transfer_funds, post_transfer}
use micro_coin.Ledger.Spec.{
  moved, Refines, Refines-done, Refines-bind, Refines-along, with_account, rebalance, post,
}

module _ {D : Type 0} ⦃dec : Decimal D⦄ ⦃laws : IsDecimal D⦄ where
  -- The tables that the writes of a transfer leave behind.
  abbrev written :
      Tx D → Account D → Account D → ℕ → ℕ → D → Currency → String → ℕ → World D → Option (Tables D)
  written tx a b from to x c ref_type ref_id w =
      with_account (account_by_id from w.tables.accounts) λ _.
        with_account (account_by_id to w.tables.accounts) λ _. some (
          rebalance
            (rebalance
              (post w.tables tx.started (entry_of (w.fresh w.ids) from (negate x) c ref_type ref_id)
                (entry_of (w.fresh w.ids) to x c ref_type ref_id))
              from (a.balance_available ⊖ x) a.balance_hold)
            to (b.balance_available ⊕ x) b.balance_hold)

  post_transfer-Refines :
      (tx : Tx D) (a b : Account D) (from to : ℕ) (x : D) (c : Currency) (ref_type : String)
      (ref_id : ℕ) (w : World D)
      → tx.statements ≡ []
      → Refines
          (written tx a b from to x c ref_type ref_id w)
          w
          (post_transfer tx a b from to x c ref_type ref_id w)
  unfolding post_transfer update_account_balance create_journal
  post_transfer-Refines tx a b from to x c ref_type ref_id w new = ground arith

  fetched :
      (s : String) (id : ℕ) (w : World D) (a : Account D)
      → (wrapped s (get_account_by_id id) w).0 ≡ ok a
      → account_by_id id w.tables.accounts ≡ some a
  unfolding get_account_by_id
  fetched s id w a h = ground arith

  fetch_leaves :
      (s : String) (id : ℕ) (w : World D)
      → (wrapped s (get_account_by_id id) w).1 ≡ record w { calls = suc w.calls }
  unfolding get_account_by_id
  fetch_leaves s id w = ground arith

  begin_leaves :
      (s : String) (w : World D) → (wrapped s begin w).1 ≡ record w { calls = suc w.calls }
  begin_leaves s w = ground arith

  begun :
      (s : String) (w : World D) (tx : Tx D)
      → (wrapped s begin w).0 ≡ ok tx
      → tx ≡ record { started = w.clock (suc w.calls); statements = [] }
  begun s w tx h = ground arith

  -- `TransferFunds` either fails and changes no table, or leaves exactly the tables of `moved`: the
  -- journal of the two movements is posted under the fresh id, and the two balances are written. They
  -- exist when both accounts do, the amount is positive and the available funds cover it.
  pub transfer_funds-Refines :
      (from to : ℕ) (x : D) (c : Currency) (ref_type : String) (ref_id : ℕ) (w : World D)
      → Refines
          (moved (w.fresh w.ids) (w.clock (suc w.calls)) from to x c ref_type ref_id w.tables)
          w
          (transfer_funds from to x c ref_type ref_id w)
  unfolding transfer_funds
  transfer_funds-Refines from to x c ref_type ref_id w =
      let spec =
        moved (w.fresh w.ids) (w.clock (suc w.calls)) from to x c ref_type ref_id w.tables in
      let get_from = wrapped "failed to get from account" (get_account_by_id from) in
      let get_to = wrapped "failed to get to account" (get_account_by_id to) in
      let start = wrapped "failed to begin transaction" begin in
      let last = λ (tx : Tx D) (a b : Account D) (u : Unit {0}).
        post_transfer tx a b from to x c ref_type ref_id in
      let fourth = λ (tx : Tx D) (a b : Account D).
        fail_if (less_than a.balance_available x) (message "insufficient funds in from account")
        >>= last tx a b in
      let third = λ (tx : Tx D) (a : Account D). get_to >>= fourth tx a in
      let second = λ (tx : Tx D). get_from >>= third tx in
      let first = λ (u : Unit {0}). start >>= second in
      let w₁ = record w { calls = suc w.calls } in
      let w₂ = record w { calls = suc (suc w.calls) } in
      let w₃ = record w { calls = suc (suc (suc w.calls)) } in
      Refines-bind spec w
        (fail_if (less_than_or_equal x nought) (message "amount must be positive")) first w refl
        λ u pos.
          Refines-bind spec w start second w
            (ap (λ (v : World D). v.tables) (begin_leaves "failed to begin transaction" w))
            λ tx made. rw (begin_leaves "failed to begin transaction" w) (
              Refines-bind spec w get_from (third tx) w₁
                (ap (λ (v : World D). v.tables) (fetch_leaves "failed to get from account" from w₁))
                λ a found. rw (fetch_leaves "failed to get from account" from w₁) (
                  Refines-bind spec w get_to (fourth tx a) w₂
                    (ap (λ (v : World D). v.tables) (fetch_leaves "failed to get to account" to w₂))
                    λ b found'. rw (fetch_leaves "failed to get to account" to w₂) (
                      Refines-bind spec w
                        (fail_if (less_than a.balance_available x)
                          (message "insufficient funds in from account"))
                        (last tx a b) w₃ refl
                        λ v enough.
                          let e = begun "failed to begin transaction" w tx made in
                          let f = fetched "failed to get from account" from w₁ a found in
                          let f' = fetched "failed to get to account" to w₂ b found' in
                          Refines-along (written tx a b from to x c ref_type ref_id w₃) spec w₃ w _
                            (ground (arith, (laws.cmp_swap x nought).0)) refl
                            (post_transfer-Refines tx a b from to x c ref_type ref_id w₃
                              (ground arith)))))

  balanced_pair : (x : D) → is_zero (nought ⊕ negate x ⊕ x) ≡ true
  balanced_pair x =
      let e : nought ⊕ negate x ⊕ x ≡ nought = simp group_laws in
      ground (arith, (laws.cmp-eq (nought ⊕ negate x ⊕ x) nought).1)

  post_transfer-succeeds :
      (tx : Tx D) (a b a' b' : Account D) (from to : ℕ) (x : D) (c : Currency) (ref_type : String)
      (ref_id : ℕ) (w : World D)
      → ((n : ℕ) → w.fails n ≡ false)
      → tx.statements ≡ []
      → account_by_id from w.tables.accounts ≡ some a'
      → account_by_id to w.tables.accounts ≡ some b'
      → (post_transfer tx a b from to x c ref_type ref_id w).0 ≡ ok tt
  unfolding post_transfer update_account_balance create_journal
  post_transfer-succeeds tx a b a' b' from to x c ref_type ref_id w up new found found' =
      let n = w.calls in
      ground (
        arith,
        up n,
        up (suc n),
        up (suc (suc n)),
        up (suc (suc (suc n))),
        up (suc (suc (suc (suc n)))),
        balanced_pair x,
      )

  -- If no call of the driver fails and `moved` does not refuse, `TransferFunds` succeeds.
  pub transfer_funds-succeeds :
      (from to : ℕ) (x : D) (c : Currency) (ref_type : String) (ref_id : ℕ) (w : World D)
      → ((n : ℕ) → w.fails n ≡ false)
      → moved (w.fresh w.ids) (w.clock (suc w.calls)) from to x c ref_type ref_id w.tables ≢ none
      → (transfer_funds from to x c ref_type ref_id w).0 ≡ ok tt
  unfolding transfer_funds get_account_by_id
  transfer_funds-succeeds from to x c ref_type ref_id w up h =
      let n = w.calls in
      let tx : Tx D = record { started = w.clock (suc n); statements = [] } in
      let w₃ = record w { calls = suc (suc (suc n)) } in
      elim (Option-cases (account_by_id from w.tables.accounts)) [
        | inl e ↦ absurd (ground arith)
        | inr (a, e) ↦ elim (Option-cases (account_by_id to w.tables.accounts)) [
          | inl e' ↦ absurd (ground arith)
          | inr (b, e') ↦ ground (
            arith,
            up n,
            up (suc n),
            up (suc (suc n)),
            post_transfer-succeeds tx a b a b from to x c ref_type ref_id w₃ up refl e e',
            (laws.cmp_swap x nought).1,
            (laws.cmp-eq x nought).0,
            (laws.cmp-eq nought x).1,
          )
        ]
      ]

  moved_to_self :
      (journal now id : ℕ) (x : D) (c : Currency) (ref_type : String) (ref_id : ℕ) (t t' : Tables D)
      (a : Account D)
      → account_by_id id t.accounts ≡ some a
      → moved journal now id id x c ref_type ref_id t ≡ some t'
      → account_by_id id t'.accounts
        ≡ some (with_balance (a.balance_available ⊕ x) a.balance_hold a)
  moved_to_self journal now id x c ref_type ref_id t t' a found h =
      let rows = set_balance id (a.balance_available ⊖ x) a.balance_hold t.accounts in
      ground (
        arith,
        account_by_id-set_balance id id (a.balance_available ⊖ x) a.balance_hold t.accounts,
        account_by_id-set_balance id id (a.balance_available ⊕ x) a.balance_hold rows,
      )

  -- A transfer from an account to itself that succeeds leaves the account with the amount added to
  -- its available funds, and the held funds as they were, both as their columns keep them.
  pub self_transfer :
      (id : ℕ) (x : D) (c : Currency) (ref_type : String) (ref_id : ℕ) (w : World D) (a : Account D)
      → account_by_id id w.tables.accounts ≡ some a
      → (transfer_funds id id x c ref_type ref_id w).0 ≡ ok tt
      → account_by_id id (transfer_funds id id x c ref_type ref_id w).1.tables.accounts
        ≡ some (with_balance (a.balance_available ⊕ x) a.balance_hold a)
  self_transfer id x c ref_type ref_id w a found done =
      moved_to_self (w.fresh w.ids) (w.clock (suc w.calls)) id x c ref_type ref_id w.tables _ a
        found
        (Refines-done _ w (transfer_funds id id x c ref_type ref_id w)
          (transfer_funds-Refines id id x c ref_type ref_id w) done)
