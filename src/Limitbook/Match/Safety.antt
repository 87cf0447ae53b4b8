-- ===== src/Limitbook/Match/Safety.antt =====
-- Whole runs of `MatchOrder`.
use micro_coin.Base.{
  ℕ, zero, suc, ◌≡◌, ◌≢◌, refl, ap, sym, subst, ℕ-cases, ◌∙◌, All, inl, inr, Option-cases,
  Bool-cases, ◌==◌, length, if_split,
}
use micro_coin.Decimal.{Decimal, IsDecimal, nought, ◌⊕◌, ◌≼◌, greater_than}
use micro_coin.Decimal.Laws.{sub_nonneg, sub_add_cancel, le_add}
use micro_coin.Models.{Order, uuid_nil}
use micro_coin.Limitbook.Memory.{Memory}
use micro_coin.Limitbook.Side.{remove_from_side, get_best_level}
use micro_coin.Limitbook.Book.{OrderBook}
use micro_coin.Limitbook.Match.{
  Matching, fill_level, match_loop, match_order, beyond, drop_empty, start, with_opposite,
  set_status, Outcome, returned, panicked, out_of_fuel,
}
use micro_coin.Limitbook.Match.Invariant.{
  IsRun, IsWithin, IsFair, sum_qty, fill_level-IsRun, resume,
}
use micro_coin.Limitbook.Side.Kept.{remove_from_side-All, remove_from_side-order_at}

module _ {D : Type 0} ⦃dec : Decimal D⦄ ⦃laws : IsDecimal D⦄ where
  drop_empty-IsRun :
      (taker l : ℕ) (o : Order D) (s : Matching D)
      → IsRun taker o s
      → IsRun taker o (drop_empty l s)
  drop_empty-IsRun taker l o s v =
      if_split (IsRun taker o) (length (s.memory.level_at l).orders == 0) (λ _. removed) (λ _. v)
    where
      kept : (remove_from_side s.memory s.side uuid_nil).1.order_at ≡ s.memory.order_at
      kept = remove_from_side-order_at s.memory s.side uuid_nil

      removed : IsRun taker o (record s {
        memory = (remove_from_side s.memory s.side uuid_nil).1;
        side = (remove_from_side s.memory s.side uuid_nil).2;
      })
      removed = record {
        apart = remove_from_side-All (λ r. r ≢ taker) s.memory uuid_nil s.side v.apart;
        same = rw kept v.same;
        whole = rw kept v.whole;
        traded = rw kept v.traded;
        left = v.left;
        fair = v.fair;
        within = rw kept v.within;
      }

  -- Every run keeps the invariant, with any fuel.
  match_loop-IsRun :
      (fuel taker : ℕ) (o : Order D) (s : Matching D)
      → IsRun taker o s
      → IsRun taker o (match_loop fuel taker s).1
  unfolding match_loop
  match_loop-IsRun zero taker o s v = v
  match_loop-IsRun (suc fuel) taker o s v = elim (Bool-cases (greater_than s.remaining nought)) [
    | inr e ↦ rw (e, match_loop) v
    | inl e ↦ elim (Option-cases (get_best_level s.side)) [
      | inl e' ↦ rw (e, e', match_loop) v
      | inr (l, e') ↦
          elim (Bool-cases (beyond (s.memory.order_at taker) (s.memory.level_at l).price)) [
            | inl b ↦ rw (e, e', b, match_loop) v
            | inr b ↦
                let array = (s.memory.level_at l).orders in
                let r = fill_level (length array) taker l 0 array s in
                let ok =
                  sym (ap (λ (u : Order D). beyond u (s.memory.level_at l).price) v.same) ∙ b in
                let v' = fill_level-IsRun (length array) taker l 0 o array s v (v.apart l) ok in
                rw (e, e', b, match_loop)
                  (resume r.0 (match_loop fuel taker (drop_empty l r.1)) r.1 v' (
                    match_loop-IsRun fuel taker o (drop_empty l r.1)
                      (drop_empty-IsRun taker l o r.1 v')))
          ]
    ]
  ]

  start-IsRun :
      (m : Memory D) (ob : OrderBook) (taker : ℕ)
      → ((j : ℕ) → All (λ r. r ≢ taker) (m.level_at j).orders)
      → ((r : ℕ) → IsWithin (m.order_at r))
      → IsRun taker (m.order_at taker) (start m ob taker)
  start-IsRun m ob taker apart within =
      let o = m.order_at taker in
      record {
        apart = apart;
        same = refl;
        whole = sub_add_cancel o.qty o.filled_qty;
        traded = sym (laws.add-nought o.filled_qty);
        left = sub_nonneg o.qty o.filled_qty (within taker);
        fair = tt;
        within = λ r n. within r;
      }

-- What a call has done to memory, from `m`: it has filled no order beyond its quantity, the taker
-- has gained exactly what was traded, and every trade is fair to it.
pub record IsMatched {D : Type 0} ⦃dec : Decimal D⦄ (taker : ℕ) (m : Memory D) (s : Matching D)
    : Type 0 where
  pub within : (r : ℕ) → IsWithin (s.memory.order_at r)
  pub gained :
      (s.memory.order_at taker).filled_qty ≡ (m.order_at taker).filled_qty ⊕ sum_qty s.trades
  pub fair : All (IsFair (m.order_at taker)) s.trades

module _ {D : Type 0} ⦃dec : Decimal D⦄ ⦃laws : IsDecimal D⦄ where
  taker-IsWithin :
      {taker : ℕ} {o : Order D} {s : Matching D}
      → IsRun taker o s
      → IsWithin (s.memory.order_at taker)
  taker-IsWithin {taker} {o} {s} v =
      let f = (s.memory.order_at taker).filled_qty in
      let e : f ⊕ s.remaining ≡ (s.memory.order_at taker).qty =
        laws.add_comm f s.remaining ∙ v.whole ∙ sym (ap (λ (u : Order D). u.qty) v.same) in
      subst (λ q. f ≼ q) e (le_add f s.remaining v.left)

  IsRun-IsMatched :
      {taker : ℕ} (m : Memory D) (s : Matching D)
      → IsRun taker (m.order_at taker) s
      → IsMatched taker m s
  IsRun-IsMatched {taker} m s v = record {
    within = λ r. elim (ℕ-cases r taker) [ inl e ↦ rw e (taker-IsWithin v) | inr n ↦ v.within r n ];
    gained = v.traded;
    fair = v.fair;
  }

  set_status-IsMatched :
      (taker : ℕ) (m : Memory D) (s : Matching D)
      → IsMatched taker m s
      → IsMatched taker m (set_status taker s)
  set_status-IsMatched taker m s v = record {
    within = λ r.
        if_split (λ (u : Order D). IsWithin u) (taker == r) (λ _. v.within taker) (λ _. v.within r);
    gained =
        if_split (λ (u : Order D). u.filled_qty ≡ (m.order_at taker).filled_qty ⊕ sum_qty s.trades)
          (taker == taker) (λ _. v.gained) (λ _. v.gained);
    fair = v.fair;
  }

  -- With any fuel and however the call ends: if no order is filled beyond its quantity before, and no
  -- level holds the taker, then no order is filled beyond its quantity after, the taker's filled
  -- quantity has grown by exactly the sum of the trades, and each trade has a positive quantity, the
  -- taker's user, and a price that the taker's limit accepts.
  pub match_order-IsMatched :
      (fuel : ℕ) (m : Memory D) (ob : OrderBook) (taker : ℕ)
      → ((j : ℕ) → All (λ r. r ≢ taker) (m.level_at j).orders)
      → ((r : ℕ) → IsWithin (m.order_at r))
      → IsMatched taker m (match_order fuel m ob taker).1
  unfolding match_order
  match_order-IsMatched fuel m ob taker apart within =
      let r = match_loop fuel taker (start m ob taker) in
      go r.0 r.1 (
        IsRun-IsMatched m r.1 (
          match_loop-IsRun fuel taker (m.order_at taker) (start m ob taker)
            (start-IsRun m ob taker apart within)))
    where
      go :
          (o : Outcome) (s : Matching D)
          → IsMatched taker m s
          → IsMatched taker m
              (elim o as (λ _. Outcome × Matching D × OrderBook) [
                | returned ↦
                    (returned, set_status taker s, with_opposite (m.order_at taker) s.side ob)
                | panicked ↦ (panicked, s, with_opposite (m.order_at taker) s.side ob)
                | out_of_fuel ↦ (out_of_fuel, s, with_opposite (m.order_at taker) s.side ob)
              ]).1
      go returned s v = set_status-IsMatched taker m s v
      go panicked s v = v
      go out_of_fuel s v = v
