-- ===== src/Ledger/Session.antt =====
-- Any sequence of calls of the ledger service, whatever the server does.
use micro_coin.Base.{ℕ, suc, ◌≢◌, List, [], ◌∷◌, String, All}
use micro_coin.Decimal.{Decimal, IsDecimal, IsStorable}
use micro_coin.Models.{Currency}
use micro_coin.Database.World.{World}
use micro_coin.Ledger.Service.{top_up_user, hold_funds, release_hold, transfer_funds}
use micro_coin.Ledger.Service.Hold.{hold_funds-Refines, release_hold-Refines}
use micro_coin.Ledger.Service.Transfer.{transfer_funds-Refines}
use micro_coin.Ledger.Service.TopUp.{top_up_user-Refines}
use micro_coin.Ledger.Spec.{held, released, moved, topped_up, Refines-keeps}
use micro_coin.Ledger.Spec.Invariant.{IsValid}
use micro_coin.Ledger.Spec.Preserved.{held-IsValid, released-IsValid}
use micro_coin.Ledger.Spec.Posted.{moved-IsValid, topped_up-IsValid}

pub data Call (D : Type 0) : Type 0 where
  top_up : ℕ → D → Call D
  hold : ℕ → Currency → D → Call D
  release : ℕ → Currency → D → Call D
  transfer : ℕ → ℕ → D → Currency → String → ℕ → Call D

module _ {D : Type 0} ⦃dec : Decimal D⦄ where
  unfoldable pub perform : Call D → World D → World D
  perform (top_up user x) w = (top_up_user user x w).1
  perform (hold user c x) w = (hold_funds user c x w).1
  perform (release user c x) w = (release_hold user c x w).1
  perform (transfer from to x c ref_type ref_id) w =
      (transfer_funds from to x c ref_type ref_id w).1

  unfoldable pub run : List (Call D) → World D → World D
  run [] w = w
  run (c ∷ cs) w = run cs (perform c w)

  -- The amount has at most ten decimal places, and a transfer is between two accounts.
  abbrev pub IsProper : Call D → Type 0
  IsProper (top_up user x) = IsStorable x
  IsProper (hold user c x) = IsStorable x
  IsProper (release user c x) = IsStorable x
  IsProper (transfer from to x c ref_type ref_id) = IsStorable x × (from ≢ to)

module _ {D : Type 0} ⦃dec : Decimal D⦄ ⦃laws : IsDecimal D⦄ where
  pub perform-IsValid :
      (c : Call D) (w : World D) → IsProper c → IsValid w.tables → IsValid (perform c w).tables
  unfolding perform
  perform-IsValid (top_up user x) w s v =
      Refines-keeps IsValid (topped_up (w.fresh w.ids) (w.clock (suc w.calls)) user x w.tables) w
        (top_up_user user x w) (top_up_user-Refines user x w) v
        (λ t e. topped_up-IsValid (w.fresh w.ids) (w.clock (suc w.calls)) user x w.tables t v s e)
  perform-IsValid (hold user c x) w s v =
      Refines-keeps IsValid (held user c x w.tables) w (hold_funds user c x w)
        (hold_funds-Refines user c x w) v (λ t e. held-IsValid user c x w.tables t v s e)
  perform-IsValid (release user c x) w s v =
      Refines-keeps IsValid (released user c x w.tables) w (release_hold user c x w)
        (release_hold-Refines user c x w) v (λ t e. released-IsValid user c x w.tables t v s e)
  perform-IsValid (transfer from to x c ref_type ref_id) w (s, ne) v =
      Refines-keeps IsValid
        (moved (w.fresh w.ids) (w.clock (suc w.calls)) from to x c ref_type ref_id w.tables) w
        (transfer_funds from to x c ref_type ref_id w)
        (transfer_funds-Refines from to x c ref_type ref_id w) v
        (λ t e.
          moved-IsValid (w.fresh w.ids) (w.clock (suc w.calls)) from to x c ref_type ref_id w.tables
            t v s ne e)

  -- From valid tables, any sequence of calls, failing or not, whose amounts have at most ten decimal
  -- places and whose transfers are between two different accounts keeps the tables valid: account ids
  -- stay distinct, no balance becomes negative or needs more than ten decimal places, the amounts of
  -- all ledger entries sum to zero, and every account but `uuid.Nil` holds, available and held
  -- together, exactly what the ledger has posted to it.
  pub run-IsValid :
      (cs : List (Call D)) (w : World D)
      → All IsProper cs
      → IsValid w.tables
      → IsValid (run cs w).tables
  unfolding run
  run-IsValid [] w p v = v
  run-IsValid (c ∷ cs) w p v = run-IsValid cs (perform c w) p.1 (perform-IsValid c w p.0 v)
