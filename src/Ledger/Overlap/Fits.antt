-- ===== src/Ledger/Overlap/Fits.antt =====
-- What a step of a hold or a release leaves: the stage of the call agrees with the tables.
use micro_coin.Base.{
  ℕ, ◌≡◌, ◌⊎◌, refl, sym, ◌∙◌, ap, Bool, false, [], ◌∷◌, Option, none, some, arith, Option-cases,
  Bool-cases, String, inl, inr,
}
use micro_coin.Decimal.{Decimal, IsDecimal, nought, ◌⊕◌, ◌≺◌}
use micro_coin.Models.{Account, Currency}
use micro_coin.Database.Tables.{Tables, update_balance, account_by_id, account_of}
use micro_coin.Database.Rows.{account_by_id-set_balance, id_of_found, by_id_of_owner, All-found}
use micro_coin.Database.World.{
  World, Action, Tx, Result, ok, err, commit, wrapped, fail_if, message, ◌>>◌,
}
use micro_coin.Ledger.Overlap.Alone.{open_tx}
use micro_coin.Database.Accounts.{get_account_by_user_id_and_currency, update_account_balance}
use micro_coin.Ledger.Spec.{rebalance}
use micro_coin.Ledger.Spec.Invariant.{IsSound, IsValid}
use micro_coin.Ledger.Spec.Preserved.{IsFunded, rebalance-IsValid}
use micro_coin.Ledger.Overlap.{
  Stage, waiting, begun, fetched, posted, written, ended, then_stage, start,
}

module _ {D : Type 0} ⦃dec : Decimal D⦄ ⦃laws : IsDecimal D⦄ where
  abbrev pub sum_of : Option (Account D) → Option D
  sum_of none = none
  sum_of (some a) = some (a.balance_available ⊕ a.balance_hold)

  -- What an account has, available and held together.
  abbrev pub total_of : ℕ → Tables D → Option D
  total_of id t = sum_of (account_by_id id t.accounts)

  abbrev pub SameTotals : Tables D → Tables D → Type 0
  SameTotals t t' = (id : ℕ) → total_of id t' ≡ total_of id t

  rebalance-SameTotals :
      (t : Tables D) (id : ℕ) (p q : D)
      → IsFunded p q
      → total_of id t ≡ some (p ⊕ q)
      → SameTotals t (rebalance t id p q)
  rebalance-SameTotals t id p q (np, nq, sp, sq) h j =
      ground (arith, account_by_id-set_balance j id p q t.accounts)

  -- The account that a total is of.
  owner_of_total :
      (id : ℕ) (x : D) (t : Tables D)
      → total_of id t ≡ some x
      → (a : Account D) × (account_by_id id t.accounts ≡ some a)
        × (x ≡ a.balance_available ⊕ a.balance_hold)
  owner_of_total id x t h = elim (Option-cases (account_by_id id t.accounts)) [
    | inl e ↦ absurd (ground arith)
    | inr (a, e) ↦ (a, e, ground arith)
  ]

  rebalanced :
      (t : Tables D) (id : ℕ) (p q : D)
      → IsValid t
      → IsFunded p q
      → total_of id t ≡ some (p ⊕ q)
      → IsValid (rebalance t id p q)
  rebalanced t id p q v funded h =
      let (a, found, total) = owner_of_total id (p ⊕ q) t h in
      let own = id_of_found id {a = a} t.accounts found in
      rw (← own) (rebalance-IsValid t a p q v (rw own found) funded total)

  committed :
      (s : String) (tx : Tx D) (id : ℕ) (p q : D) (w : World D)
      → tx.statements ≡ update_balance id p q ∷ []
      → ((wrapped s (commit tx) w).1.tables ≡ w.tables)
        ⊎ ((wrapped s (commit tx) w).1.tables ≡ rebalance w.tables id p q)
  committed s tx id p q w e = elim (Bool-cases (w.fails w.calls)) [
    | inl down ↦ inl (ground arith)
    | inr up ↦ inr (ground arith)
  ]

module _ {D : Type 0} ⦃dec : Decimal D⦄ ⦃laws : IsDecimal D⦄ (x : D) where
  -- What a stage of a call for `x` expects of the tables: the amount was found to be positive, and an
  -- account has the total that it was read with.
  abbrev pub Fits : Tables D → Stage D → Type 0
  Fits t waiting = Unit
  Fits t (begun tx) = (nought ≺ x) × (tx.statements ≡ [])
  Fits t (fetched tx a) =
      (nought ≺ x)
      × (tx.statements ≡ [])
      × IsSound a
      × (total_of a.id t ≡ some (a.balance_available ⊕ a.balance_hold))
  Fits t (posted tx a) = Unit
  Fits t (written tx) =
      (id : ℕ) × (p : D) × (q : D) × (tx.statements ≡ update_balance id p q ∷ [])
      × IsFunded p q
      × (total_of id t ≡ some (p ⊕ q))
  Fits t (ended r) = Unit

  pub Fits-along : (t t' : Tables D) (s : Stage D) → SameTotals t t' → Fits t s → Fits t' s
  Fits-along t t' waiting e f = tt
  Fits-along t t' (begun tx) e f = f
  Fits-along t t' (fetched tx a) e (k, f, g, h) = (k, f, g, e a.id ∙ h)
  Fits-along t t' (posted tx a) e f = tt
  Fits-along t t' (written tx) e (id, p, q, f, g, h) = (id, p, q, f, g, e id ∙ h)
  Fits-along t t' (ended r) e f = tt

  -- A step leaves the tables valid, with the totals as they were, and its own stage as it expects.
  pub record Goes (t : Tables D) (r : Stage D × World D) : Type 0 where
    pub valid : IsValid r.1.tables
    pub same : SameTotals t r.1.tables
    pub fits : Fits r.1.tables r.0

  -- A step that writes no table.
  quiet :
      {A : Type 0} (t : Tables D) (m : Action D A) (f : A → Stage D) (w : World D)
      → IsValid t
      → (m w).1.tables ≡ t
      → ((a : A) → (m w).0 ≡ ok a → Fits t (f a))
      → Goes t (then_stage m f w)
  quiet {A} t m f w v e next = record {
    valid = rw e v;
    same = λ id. ap (total_of id) e;
    fits = go (m w).0 next;
  }
    where
      go :
          (r : Result A)
          → ((a : A) → r ≡ ok a → Fits t (f a))
          → Fits (m w).1.tables (elim r as (λ _. Stage D) [ ok a ↦ f a | err e ↦ ended (err e) ])
      go (ok a) next = rw e (next a refl)
      go (err x) next = tt

  pub commit-Goes :
      (tx : Tx D) (w : World D)
      → IsValid w.tables
      → Fits w.tables (written tx)
      → Goes w.tables
          (then_stage (wrapped "failed to commit transaction" (commit tx)) (λ u. ended (ok u)) w)
  commit-Goes tx w v (id, p, q, e, funded, h) =
      let s : String = "failed to commit transaction" in
      let last = λ (r : Result (Unit {0})). elim r as (λ _. Stage D) [
        | ok u ↦ ended (ok u)
        | err x ↦ ended (err x)
      ] in
      let nothing = λ (t : Tables D) (r : Result (Unit {0})). elim r as (λ x. Fits t (last x)) [
        | ok u ↦ tt
        | err x ↦ tt
      ] in
      elim (committed s tx id p q w e) [
        | inl same ↦ record {
          valid = rw same v;
          same = λ j. ap (total_of j) same;
          fits = nothing (wrapped s (commit tx) w).1.tables (wrapped s (commit tx) w).0;
        }
        | inr new ↦ record {
          valid = rw new (rebalanced w.tables id p q v funded h);
          same = λ j. ap (total_of j) new ∙ rebalance-SameTotals w.tables id p q funded h j;
          fits = nothing (wrapped s (commit tx) w).1.tables (wrapped s (commit tx) w).0;
        }
      ]

  pub start-Goes : (w : World D) → IsValid w.tables → Goes w.tables (start x w)
  start-Goes w v =
      quiet w.tables (open_tx x) begun w v (ground arith)
        λ tx e. (ground (arith, laws.cmp_swap x nought), ground arith)

  pub fetch-Goes :
      (s : String) (user : ℕ) (c : Currency) (tx : Tx D) (w : World D)
      → IsValid w.tables
      → Fits w.tables (begun tx)
      → Goes w.tables
          (then_stage (wrapped s (get_account_by_user_id_and_currency user c)) (fetched tx) w)
  unfolding get_account_by_user_id_and_currency
  fetch-Goes s user c tx w v (k, e) =
      quiet w.tables (wrapped s (get_account_by_user_id_and_currency user c)) (fetched tx) w v
        (ground arith)
        λ a h.
          let owned : account_of user c w.tables.accounts ≡ some a = ground arith in
          let found = by_id_of_owner user c w.tables.accounts v.keyed owned in
          (k, e, All-found IsSound a.id w.tables.accounts v.sound found, rw found refl)

  -- The write of a call that has read `a`, for new amounts that its check makes sound.
  pub write-Goes :
      (refused : Bool) (text : String) (tx : Tx D) (a : Account D) (p q : D) (w : World D)
      → IsValid w.tables
      → Fits w.tables (fetched tx a)
      → (refused ≡ false → IsFunded p q × (p ⊕ q ≡ a.balance_available ⊕ a.balance_hold))
      → Goes w.tables (
          then_stage
            (fail_if refused (message text)
              >> wrapped "failed to update account balance" (update_account_balance tx a.id p q))
            written
            w)
  unfolding update_account_balance
  write-Goes refused text tx a p q w v (k, e, sound, h) make =
      let m =
        fail_if refused (message text)
        >> wrapped "failed to update account balance" (update_account_balance tx a.id p q) in
      quiet w.tables m written w v (ground arith) λ tx' r.
        let passed : refused ≡ false = ground arith in
        let (funded, total) = make passed in
        let shape : tx'.statements ≡ update_balance a.id p q ∷ [] = ground arith in
        (a.id, p, q, shape, funded, h ∙ ap some (sym total))
