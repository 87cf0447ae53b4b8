-- ===== src/Ledger/Spec.antt =====
-- What each operation of the ledger promises, as a partial function on the tables: `none` is a
-- refusal. No transaction, driver or error text is in it.
pub mod Invariant
pub mod Preserved
pub mod Posted
pub mod Inverse
pub mod Held
pub mod Opened
use micro_coin.Base.{
  refl, sym, ◌∙◌, ℕ, suc, ◌+◌, Bool, true, false, ◌&&◌, List, [], ◌∷◌, ◌++◌, Option, none, some,
  String, if◌then◌else◌, ◌≡◌,
}
use micro_coin.Decimal.{Decimal, nought, ◌⊕◌, ◌⊖◌, negate, less_than}
use micro_coin.Models.{Account, LedgerEntry, Currency, usd, uuid_nil}
use micro_coin.Database.Tables.{Tables, set_balance, account_of, account_by_id}
use micro_coin.Ledger.Journal.{entry_of}
use micro_coin.Database.World.{World, Action, Result, ok, err, ◌>>=◌}

module _ {D : Type 0} ⦃dec : Decimal D⦄ where
  abbrev pub covered : D → D → Bool
  covered amount funds = less_than nought amount && (if less_than funds amount then false else true)

  abbrev pub with_account : Option (Account D) → (Account D → Option (Tables D)) → Option (Tables D)
  with_account none f = none
  with_account (some a) f = f a

  abbrev pub rebalance : Tables D → ℕ → D → D → Tables D
  rebalance t id available hold = record t { accounts = set_balance id available hold t.accounts }

  -- `x` moves from available to held.
  abbrev pub held : ℕ → Currency → D → Tables D → Option (Tables D)
  held user c x t = with_account (account_of user c t.accounts) λ a.
      if covered x a.balance_available
      then some (rebalance t a.id (a.balance_available ⊖ x) (a.balance_hold ⊕ x))
      else none

  -- `x` moves from held to available.
  abbrev pub released : ℕ → Currency → D → Tables D → Option (Tables D)
  released user c x t = with_account (account_of user c t.accounts) λ a.
      if covered x a.balance_hold
      then some (rebalance t a.id (a.balance_available ⊕ x) (a.balance_hold ⊖ x))
      else none

  -- The two rows of a journal, as the database keeps them.
  abbrev pub journal_rows : Tables D → ℕ → LedgerEntry D → LedgerEntry D → List (LedgerEntry D)
  journal_rows t now e₁ e₂ =
      (t.ledger_entries
        ++ record e₁ { id = t.next_entry; amount = dec.numeric e₁.amount; created_at = now } ∷ [])
      ++ record e₂ { id = suc t.next_entry; amount = dec.numeric e₂.amount; created_at = now } ∷ []

  abbrev pub post : Tables D → ℕ → LedgerEntry D → LedgerEntry D → Tables D
  post t now e₁ e₂ = record t {
    ledger_entries = journal_rows t now e₁ e₂;
    next_entry = suc (suc t.next_entry);
  }

  -- `x` leaves the available funds of `from` and then reaches those of `to`, each computed from the
  -- balance before the transfer, with a journal of the two movements.
  abbrev pub moved : ℕ → ℕ → ℕ → ℕ → D → Currency → String → ℕ → Tables D → Option (Tables D)
  moved journal now from to x c ref_type ref_id t =
      with_account (account_by_id from t.accounts) λ a.
        with_account (account_by_id to t.accounts) λ b.
          if covered x a.balance_available
          then some (
              rebalance
                (rebalance
                  (post t now (entry_of journal from (negate x) c ref_type ref_id)
                    (entry_of journal to x c ref_type ref_id))
                  from (a.balance_available ⊖ x) a.balance_hold)
                to (b.balance_available ⊕ x) b.balance_hold)
          else none

  -- `x` is added to the user's dollars, against the account `uuid.Nil`, which must exist.
  abbrev pub topped_up : ℕ → ℕ → ℕ → D → Tables D → Option (Tables D)
  topped_up journal now user x t = with_account (account_of user usd t.accounts) λ a.
      with_account (account_by_id uuid_nil t.accounts) λ equity.
        if less_than nought x
        then some (
            rebalance
              (post t now (entry_of journal a.id x usd "TOPUP" journal)
                (entry_of journal uuid_nil (negate x) usd "TOPUP" journal))
              a.id (a.balance_available ⊕ x) a.balance_hold)
        else none

-- An action carries out a specification: an error changes no table, and success leaves exactly the
-- specified tables.
abbrev pub Refines : {D A : Type 0} → Option (Tables D) → World D → Result A × World D → Type 0
Refines spec w (ok _, w') = spec ≡ some w'.tables
Refines spec w (err _, w') = w'.tables ≡ w.tables

-- A run that succeeds leaves the specified tables.
pub Refines-done :
    {D A : Type 0} (spec : Option (Tables D)) (w : World D) (r : Result A × World D) {a : A}
    → Refines spec w r
    → r.0 ≡ ok a
    → spec ≡ some r.1.tables
Refines-done spec w (ok _, w') h e = h
Refines-done spec w (err _, w') h e = cc

-- What holds of the tables before a run and after the specified change holds after the run.
pub Refines-keeps :
    {D A : Type 0} (P : Tables D → Type 0) (spec : Option (Tables D)) (w : World D)
    (r : Result A × World D)
    → Refines spec w r
    → P w.tables
    → ((t : Tables D) → spec ≡ some t → P t)
    → P r.1.tables
Refines-keeps P spec w (ok _, w') h p f = f w'.tables h
Refines-keeps P spec w (err _, w') h p f = rw h p

-- A first step that leaves the tables as they are can be passed by.
pub Refines-bind :
    {D A B : Type 0} (spec : Option (Tables D)) (w₀ : World D) (m : Action D A) (f : A → Action D B)
    (w : World D)
    → (m w).1.tables ≡ w₀.tables
    → ((a : A) → (m w).0 ≡ ok a → Refines spec w₀ (f a (m w).1))
    → Refines spec w₀ ((m >>= f) w)
Refines-bind {D} {A} {B} spec w₀ m f w same next = go (m w).0 (m w).1 same next
  where
    go :
        (r : Result A) (w' : World D)
        → w'.tables ≡ w₀.tables
        → ((a : A) → r ≡ ok a → Refines spec w₀ (f a w'))
        → Refines spec w₀
            (elim r as (λ _. Result B × World D) [ ok a ↦ f a w' | err e ↦ (err e, w') ])
    go (ok a) w' same next = next a refl
    go (err e) w' same next = same

pub Refines-along :
    {D A : Type 0} (spec spec' : Option (Tables D)) (w w' : World D) (r : Result A × World D)
    → spec ≡ spec'
    → w.tables ≡ w'.tables
    → Refines spec w r
    → Refines spec' w' r
Refines-along spec spec' w w' (ok _, v) e t h = sym e ∙ h
Refines-along spec spec' w w' (err _, v) e t h = h ∙ t
