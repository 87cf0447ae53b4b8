-- ===== src/Ledger/Service/Inverse.antt =====
-- `ReleaseHold` after `HoldFunds`.
use micro_coin.Base.{ℕ, ◌≡◌, ◌≢◌, none, false, arith}
use micro_coin.Decimal.{Decimal, IsDecimal, IsStorable}
use micro_coin.Models.{Currency}
use micro_coin.Database.World.{World, ok}
use micro_coin.Database.Accounts.{get_account_by_user_id_and_currency, update_account_balance}
use micro_coin.Ledger.Service.{hold_funds, release_hold}
use micro_coin.Ledger.Service.Hold.{
  hold_funds-Refines, release_hold-Refines, hold_funds-succeeds, release_hold-succeeds,
}
use micro_coin.Ledger.Spec.{held, released, Refines-done}
use micro_coin.Ledger.Spec.Inverse.{released-held}
use micro_coin.Ledger.Spec.Invariant.{IsValid}

module _ {D : Type 0} ⦃dec : Decimal D⦄ ⦃laws : IsDecimal D⦄ where
  hold_keeps_fails :
      (user : ℕ) (c : Currency) (x : D) (w : World D) → (hold_funds user c x w).1.fails ≡ w.fails
  unfolding hold_funds get_account_by_user_id_and_currency update_account_balance
  hold_keeps_fails user c x w = ground arith

  -- In valid tables, while no call of the driver fails: a hold of an amount of at most ten decimal
  -- places that `held` does not refuse succeeds, a release of the same amount after it succeeds too,
  -- and the two leave the tables exactly as they were.
  pub release_hold-hold_funds :
      (user : ℕ) (c : Currency) (x : D) (w : World D)
      → ((n : ℕ) → w.fails n ≡ false)
      → IsValid w.tables
      → IsStorable x
      → held user c x w.tables ≢ none
      → ((hold_funds user c x w).0 ≡ ok tt)
        × ((release_hold user c x (hold_funds user c x w).1).0 ≡ ok tt)
        × ((release_hold user c x (hold_funds user c x w).1).1.tables ≡ w.tables)
  release_hold-hold_funds user c x w up v s n =
      let w' = (hold_funds user c x w).1 in
      let h = hold_funds-succeeds user c x w up n in
      let forth =
        Refines-done (held user c x w.tables) w (hold_funds user c x w)
          (hold_funds-Refines user c x w) h in
      let inverse = released-held user c x w.tables w'.tables v s forth in
      let r =
        release_hold-succeeds user c x w' (λ k. rw (hold_keeps_fails user c x w) (up k))
          (λ e. cc (inverse, e)) in
      let back =
        Refines-done (released user c x w'.tables) w' (release_hold user c x w')
          (release_hold-Refines user c x w') r in
      (h, r, cc (back, inverse))
