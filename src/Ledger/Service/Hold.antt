-- ===== src/Ledger/Service/Hold.antt =====
-- `HoldFunds` and `ReleaseHold`.
use micro_coin.Base.{ℕ, suc, ◌≡◌, ◌≢◌, none, arith, false}
use micro_coin.Decimal.{Decimal, IsDecimal, nought}
use micro_coin.Models.{Currency}
use micro_coin.Database.World.{World, ok}
use micro_coin.Database.Accounts.{get_account_by_user_id_and_currency, update_account_balance}
use micro_coin.Ledger.Service.{hold_funds, release_hold}
use micro_coin.Ledger.Spec.{held, released, Refines}

module _ {D : Type 0} ⦃dec : Decimal D⦄ ⦃laws : IsDecimal D⦄ where
  -- `HoldFunds` either fails and changes no table, or leaves exactly the tables of `held`, which
  -- exist when the user has the account, the amount is positive and the available funds cover it.
  pub hold_funds-Refines :
      (user : ℕ) (c : Currency) (x : D) (w : World D)
      → Refines (held user c x w.tables) w (hold_funds user c x w)
  unfolding hold_funds get_account_by_user_id_and_currency update_account_balance
  hold_funds-Refines user c x w = ground (arith, (laws.cmp_swap x nought).0)

  -- `ReleaseHold` either fails and changes no table, or leaves exactly the tables of `released`,
  -- which exist when the user has the account, the amount is positive and the held funds cover it.
  pub release_hold-Refines :
      (user : ℕ) (c : Currency) (x : D) (w : World D)
      → Refines (released user c x w.tables) w (release_hold user c x w)
  unfolding release_hold get_account_by_user_id_and_currency update_account_balance
  release_hold-Refines user c x w = ground (arith, (laws.cmp_swap x nought).0)

  -- If no call of the driver fails and `held` does not refuse, `HoldFunds` succeeds.
  pub hold_funds-succeeds :
      (user : ℕ) (c : Currency) (x : D) (w : World D)
      → ((n : ℕ) → w.fails n ≡ false)
      → held user c x w.tables ≢ none
      → (hold_funds user c x w).0 ≡ ok tt
  unfolding hold_funds get_account_by_user_id_and_currency update_account_balance
  hold_funds-succeeds user c x w up h =
      let n = w.calls in
      ground (
        arith,
        up n,
        up (suc n),
        up (suc (suc n)),
        up (suc (suc (suc n))),
        (laws.cmp_swap x nought).1,
        (laws.cmp-eq x nought).0,
        (laws.cmp-eq nought x).1,
      )

  -- If no call of the driver fails and `released` does not refuse, `ReleaseHold` succeeds.
  pub release_hold-succeeds :
      (user : ℕ) (c : Currency) (x : D) (w : World D)
      → ((n : ℕ) → w.fails n ≡ false)
      → released user c x w.tables ≢ none
      → (release_hold user c x w).0 ≡ ok tt
  unfolding release_hold get_account_by_user_id_and_currency update_account_balance
  release_hold-succeeds user c x w up h =
      let n = w.calls in
      ground (
        arith,
        up n,
        up (suc n),
        up (suc (suc n)),
        up (suc (suc (suc n))),
        (laws.cmp_swap x nought).1,
        (laws.cmp-eq x nought).0,
        (laws.cmp-eq nought x).1,
      )
