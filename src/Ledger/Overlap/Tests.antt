-- ===== src/Ledger/Overlap/Tests.antt =====
-- Interleaved calls at the small database of the ledger's tests.
use micro_coin.Base.{◌≡◌, refl, [], ◌∷◌}
use micro_coin.Base.Int.{pos}
use micro_coin.Decimal.{◌⊕◌}
use micro_coin.Decimal.Instance.{int_decimal, int_IsDecimal}
use micro_coin.Models.{usd}
use micro_coin.Database.World.{ok}
use micro_coin.Ledger.Tests.{world, tables-IsValid, account}
use micro_coin.Ledger.Spec.Invariant.{IsValid, posted}
use micro_coin.Ledger.Overlap.{hold, release, top_up, waiting, ended, interleave}
use micro_coin.Ledger.Overlap.Fits.{total_of}
use micro_coin.Ledger.Overlap.Holds.{interleave-IsValid, all_waiting}
use micro_coin.Ledger.Overlap.Lost.{around, top_up-during-hold}

-- Two holds and a release of user 7, mixed.
interleave-IsValid_example :
    IsValid
      (interleave
        (0 ∷ 1 ∷ 0 ∷ 1 ∷ 2 ∷ 2 ∷ 0 ∷ 1 ∷ 1 ∷ 2 ∷ 0 ∷ 2 ∷ [])
        (all_waiting (hold 7 usd (pos 30) ∷ hold 7 usd (pos 90) ∷ release 7 usd (pos 5) ∷ []))
        world).1.tables
interleave-IsValid_example =
    interleave-IsValid (0 ∷ 1 ∷ 0 ∷ 1 ∷ 2 ∷ 2 ∷ 0 ∷ 1 ∷ 1 ∷ 2 ∷ 0 ∷ 2 ∷ [])
      (hold 7 usd (pos 30) ∷ hold 7 usd (pos 90) ∷ release 7 usd (pos 5) ∷ []) world
      (refl, (refl, (refl, tt))) tables-IsValid

top_up-during-hold_example :
    (let h = hold 7 usd (pos 40) in
      let t = top_up 7 (pos 30) in
      let (ps, w') = interleave around ((h, waiting) ∷ (t, waiting) ∷ []) world in
      (ps ≡ (h, ended (ok tt)) ∷ (t, ended (ok tt)) ∷ [])
      × (posted 1 w'.tables.ledger_entries ≡ posted 1 world.tables.ledger_entries ⊕ pos 30)
      × (total_of 1 w'.tables ≡ total_of 1 world.tables))
top_up-during-hold_example =
    top_up-during-hold 7 (pos 30) (pos 40) (account 1 7 usd (pos 100) (pos 20))
      (account 0 0 usd (pos 0) (pos 0)) world (λ n. refl) tables-IsValid refl refl (λ e. cc) refl
      refl refl refl refl
