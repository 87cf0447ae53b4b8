-- ===== src/Ledger/Overlap.antt =====
-- internal/ledger/service.go: calls of `HoldFunds`, `ReleaseHold` and `TopUpUser` whose statements
-- interleave, as they do when requests are served by several goroutines. A call goes on by one
-- statement at a time. The database's row locks order the writes of two open transactions by their
-- commits, which is when the writes happen here.
pub mod Alone
pub mod Fits
pub mod Holds
pub mod Lost
mod Tests
use micro_coin.Base.{ℕ, zero, suc, Bool, List, [], ◌∷◌}
use micro_coin.Decimal.{Decimal, nought, ◌⊕◌, ◌⊖◌, less_than, less_than_or_equal}
use micro_coin.Models.{Account, Currency, usd}
use micro_coin.Database.World.{
  World, Action, Result, Tx, ok, err, message, ◌>>=◌, ◌>>◌, fail_if, wrapped, new_uuid, begin,
  commit,
}
use micro_coin.Database.Accounts.{get_account_by_user_id_and_currency, update_account_balance}
use micro_coin.Ledger.Journal.{create_journal}
use micro_coin.Ledger.Service.{top_up_entries}

pub data Call (D : Type 0) : Type 0 where
  hold : ℕ → Currency → D → Call D
  release : ℕ → Currency → D → Call D
  top_up : ℕ → D → Call D

-- What a call has done so far.
pub data Stage (D : Type 0) : Type 0 where
  waiting : Stage D
  begun : Tx D → Stage D
  -- with the account that it has read
  fetched : Tx D → Account D → Stage D
  -- with the journal in the transaction
  posted : Tx D → Account D → Stage D
  written : Tx D → Stage D
  ended : Result (Unit {0}) → Stage D

module _ {D : Type 0} where
  -- An error ends the call.
  abbrev pub then_stage : {A : Type 0} → Action D A → (A → Stage D) → World D → Stage D × World D
  then_stage m f w = let (r, w') = m w in (elim r [ ok a ↦ f a | err e ↦ ended (err e) ], w')

module _ {D : Type 0} ⦃dec : Decimal D⦄ where
  abbrev pub start : D → World D → Stage D × World D
  start x =
      then_stage
        (fail_if (less_than_or_equal x nought) (message "amount must be positive")
          >> wrapped "failed to begin transaction" begin)
        begun

  -- The next step of a call.
  unfoldable pub advance : Call D → Stage D → World D → Stage D × World D
  advance (hold user c x) waiting = start x
  advance (hold user c x) (begun tx) =
      then_stage (wrapped "failed to get account" (get_account_by_user_id_and_currency user c))
        (fetched tx)
  advance (hold user c x) (fetched tx a) =
      then_stage
        (fail_if (less_than a.balance_available x) (message "insufficient funds")
          >> wrapped "failed to update account balance"
              (update_account_balance tx a.id (a.balance_available ⊖ x) (a.balance_hold ⊕ x)))
        written
  advance (release user c x) waiting = start x
  advance (release user c x) (begun tx) =
      then_stage (wrapped "failed to get account" (get_account_by_user_id_and_currency user c))
        (fetched tx)
  advance (release user c x) (fetched tx a) =
      then_stage
        (fail_if (less_than a.balance_hold x) (message "insufficient held funds")
          >> wrapped "failed to update account balance"
              (update_account_balance tx a.id (a.balance_available ⊕ x) (a.balance_hold ⊖ x)))
        written
  advance (top_up user x) waiting = start x
  advance (top_up user x) (begun tx) =
      then_stage
        (wrapped "failed to get USD account" (get_account_by_user_id_and_currency user usd))
        (fetched tx)
  advance (top_up user x) (fetched tx a) =
      then_stage
        (new_uuid >>= λ journal.
          wrapped "failed to create journal" (create_journal tx (top_up_entries journal a.id x)))
        (λ tx'. posted tx' a)
  advance (top_up user x) (posted tx a) =
      then_stage
        (wrapped "failed to update account balance"
          (update_account_balance tx a.id (a.balance_available ⊕ x) a.balance_hold))
        written
  advance call (posted tx a) = λ w. (posted tx a, w)
  advance call (written tx) =
      then_stage (wrapped "failed to commit transaction" (commit tx)) (λ u. ended (ok u))
  advance call (ended r) = λ w. (ended r, w)

  -- One step of the i-th call; none where there is no such call.
  unfoldable pub step : ℕ → List (Call D × Stage D) → World D → List (Call D × Stage D) × World D
  step i [] w = ([], w)
  step zero ((c, s) ∷ ps) w = let (s', w') = advance c s w in ((c, s') ∷ ps, w')
  step (suc i) (p ∷ ps) w = let (ps', w') = step i ps w in (p ∷ ps', w')

  -- The steps in the order of a schedule.
  unfoldable pub interleave :
      List ℕ → List (Call D × Stage D) → World D → List (Call D × Stage D) × World D
  interleave [] ps w = (ps, w)
  interleave (i ∷ is) ps w = let (ps', w') = step i ps w in interleave is ps' w'

  -- One call for several steps, alone.
  unfoldable pub advance_by : ℕ → Call D → Stage D → World D → Stage D × World D
  advance_by zero c s w = (s, w)
  advance_by (suc n) c s w = let (s', w') = advance c s w in advance_by n c s' w'
