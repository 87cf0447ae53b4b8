-- ===== src/Ledger/Overlap/Holds.antt =====
-- Interleaved holds and releases, and the invariant of the ledger.
use micro_coin.Base.{ℕ, zero, suc, refl, List, [], ◌∷◌, arith, All}
use micro_coin.Decimal.{Decimal, IsDecimal, IsStorable, nought, ◌⊕◌, ◌⊖◌, less_than}
use micro_coin.Decimal.Laws.{
  move_total, move_back, le_of_lt, le_of_not_lt, sub_nonneg, add_nonneg, sub-IsStorable,
}
use micro_coin.Models.{Account}
use micro_coin.Database.Tables.{Tables}
use micro_coin.Database.World.{World, Tx, wrapped, fail_if, message, ◌>>◌}
use micro_coin.Database.Accounts.{update_account_balance}
use micro_coin.Ledger.Spec.Invariant.{IsValid}
use micro_coin.Ledger.Overlap.{
  Call, Stage, hold, release, top_up, waiting, begun, fetched, posted, written, ended, advance,
  then_stage, step, interleave,
}
use micro_coin.Ledger.Overlap.Fits.{
  SameTotals, Fits, Fits-along, Goes, start-Goes, fetch-Goes, commit-Goes, write-Goes,
}

module _ {D : Type 0} ⦃dec : Decimal D⦄ ⦃laws : IsDecimal D⦄ where
  -- A hold or a release, of an amount that fits its column.
  abbrev pub MovesOwn : Call D → Type 0
  MovesOwn (hold user c x) = IsStorable x
  MovesOwn (release user c x) = IsStorable x
  MovesOwn (top_up user x) = ⊥

  abbrev amount_of : Call D → D
  amount_of (hold user c x) = x
  amount_of (release user c x) = x
  amount_of (top_up user x) = x

  hold-Goes :
      (x : D) (tx : Tx D) (a : Account D) (w : World D)
      → IsStorable x
      → IsValid w.tables
      → Fits x w.tables (fetched tx a)
      → Goes x w.tables (
          then_stage
            (fail_if (less_than a.balance_available x) (message "insufficient funds")
              >> wrapped "failed to update account balance"
                  (update_account_balance tx a.id (a.balance_available ⊖ x) (a.balance_hold ⊕ x)))
            written
            w)
  hold-Goes x tx a w st v f =
      let (pos, e, sound, h) = f in
      write-Goes x (less_than a.balance_available x) "insufficient funds" tx a
        (a.balance_available ⊖ x) (a.balance_hold ⊕ x) w v f
        λ enough.
          let covered = le_of_not_lt x a.balance_available (ground arith) in
          (
            (
              sub_nonneg a.balance_available x covered,
              add_nonneg a.balance_hold x sound.hold_nonneg (le_of_lt nought x pos),
              sub-IsStorable a.balance_available x sound.available_storable st,
              laws.numeric-add a.balance_hold x sound.hold_storable st,
            ),
            move_total a.balance_available a.balance_hold x,
          )

  release-Goes :
      (x : D) (tx : Tx D) (a : Account D) (w : World D)
      → IsStorable x
      → IsValid w.tables
      → Fits x w.tables (fetched tx a)
      → Goes x w.tables (
          then_stage
            (fail_if (less_than a.balance_hold x) (message "insufficient held funds")
              >> wrapped "failed to update account balance"
                  (update_account_balance tx a.id (a.balance_available ⊕ x) (a.balance_hold ⊖ x)))
            written
            w)
  release-Goes x tx a w st v f =
      let (pos, e, sound, h) = f in
      write-Goes x (less_than a.balance_hold x) "insufficient held funds" tx a
        (a.balance_available ⊕ x) (a.balance_hold ⊖ x) w v f
        λ enough.
          let covered = le_of_not_lt x a.balance_hold (ground arith) in
          (
            (
              add_nonneg a.balance_available x sound.available_nonneg (le_of_lt nought x pos),
              sub_nonneg a.balance_hold x covered,
              laws.numeric-add a.balance_available x sound.available_storable st,
              sub-IsStorable a.balance_hold x sound.hold_storable st,
            ),
            move_back a.balance_available a.balance_hold x,
          )

  -- A step that does nothing.
  idle-Goes :
      (x : D) (s : Stage D) (w : World D)
      → IsValid w.tables
      → Fits x w.tables s
      → Goes x w.tables (s, w)
  idle-Goes x s w v f = record { valid = v; same = λ id. refl; fits = f }

  advance-Goes :
      (c : Call D) (s : Stage D) (w : World D)
      → MovesOwn c
      → IsValid w.tables
      → Fits (amount_of c) w.tables s
      → Goes (amount_of c) w.tables (advance c s w)
  unfolding advance
  advance-Goes (hold user c x) waiting w m v f = start-Goes x w v
  advance-Goes (hold user c x) (begun tx) w m v f =
      fetch-Goes x "failed to get account" user c tx w v f
  advance-Goes (hold user c x) (fetched tx a) w m v f = hold-Goes x tx a w m v f
  advance-Goes (hold user c x) (posted tx a) w m v f = idle-Goes x (posted tx a) w v f
  advance-Goes (hold user c x) (written tx) w m v f = commit-Goes x tx w v f
  advance-Goes (hold user c x) (ended r) w m v f = idle-Goes x (ended r) w v f
  advance-Goes (release user c x) waiting w m v f = start-Goes x w v
  advance-Goes (release user c x) (begun tx) w m v f =
      fetch-Goes x "failed to get account" user c tx w v f
  advance-Goes (release user c x) (fetched tx a) w m v f = release-Goes x tx a w m v f
  advance-Goes (release user c x) (posted tx a) w m v f = idle-Goes x (posted tx a) w v f
  advance-Goes (release user c x) (written tx) w m v f = commit-Goes x tx w v f
  advance-Goes (release user c x) (ended r) w m v f = idle-Goes x (ended r) w v f
  advance-Goes (top_up user x) s w m v f = absurd m

  -- The calls that are under way, each as it expects the tables.
  abbrev Fit : Tables D → List (Call D × Stage D) → Type 0
  Fit t = All (λ p. MovesOwn p.0 × Fits (amount_of p.0) t p.1)

  Fit-along :
      (t t' : Tables D) (ps : List (Call D × Stage D)) → SameTotals t t' → Fit t ps → Fit t' ps
  Fit-along t t' [] e f = tt
  Fit-along t t' ((c, s) ∷ ps) e ((m, f), fs) =
      ((m, Fits-along (amount_of c) t t' s e f), Fit-along t t' ps e fs)

  step-Fit :
      (i : ℕ) (ps : List (Call D × Stage D)) (w : World D)
      → IsValid w.tables
      → Fit w.tables ps
      → (let (ps', w') = step i ps w in
          IsValid w'.tables × SameTotals w.tables w'.tables × Fit w'.tables ps')
  unfolding step
  step-Fit i [] w v f = (v, λ id. refl, tt)
  step-Fit zero ((c, s) ∷ ps) w v ((m, f), fs) =
      let g = advance-Goes c s w m v f in
      (g.valid, g.same, ((m, g.fits), Fit-along w.tables (advance c s w).1.tables ps g.same fs))
  step-Fit (suc i) ((c, s) ∷ ps) w v ((m, f), fs) =
      let (v', e, fs') = step-Fit i ps w v fs in
      (v', e, ((m, Fits-along (amount_of c) w.tables (step i ps w).1.tables s e f), fs'))

  interleave-Fit :
      (is : List ℕ) (ps : List (Call D × Stage D)) (w : World D)
      → IsValid w.tables
      → Fit w.tables ps
      → IsValid (interleave is ps w).1.tables
  unfolding interleave
  interleave-Fit [] ps w v f = v
  interleave-Fit (i ∷ is) ps w v f =
      let (v', e, f') = step-Fit i ps w v f in
      interleave-Fit is (step i ps w).0 (step i ps w).1 v' f'

  abbrev pub all_waiting : List (Call D) → List (Call D × Stage D)
  all_waiting [] = []
  all_waiting (c ∷ cs) = (c, waiting) ∷ all_waiting cs

  fresh-Fit : (t : Tables D) (cs : List (Call D)) → All MovesOwn cs → Fit t (all_waiting cs)
  fresh-Fit t [] m = tt
  fresh-Fit t (hold user c x ∷ cs) (m, ms) = ((m, tt), fresh-Fit t cs ms)
  fresh-Fit t (release user c x ∷ cs) (m, ms) = ((m, tt), fresh-Fit t cs ms)
  fresh-Fit t (top_up user x ∷ cs) (m, ms) = absurd m

  -- Any number of holds and releases, of amounts with at most ten decimal places, run with their
  -- statements interleaved in any order, some of them failing or left unfinished: the tables stay
  -- valid. No balance becomes negative, and every account but `uuid.Nil` keeps what was posted to it,
  -- although one call can undo what another has moved between its two balances.
  pub interleave-IsValid :
      (schedule : List ℕ) (cs : List (Call D)) (w : World D)
      → All MovesOwn cs
      → IsValid w.tables
      → IsValid (interleave schedule (all_waiting cs) w).1.tables
  interleave-IsValid schedule cs w m v =
      interleave-Fit schedule (all_waiting cs) w v (fresh-Fit w.tables cs m)
