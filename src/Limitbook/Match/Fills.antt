-- ===== src/Limitbook/Match/Fills.antt =====
-- Rounds of the two loops of `MatchOrder` from given states.
use micro_coin.Base.{
  ℕ, zero, suc, ◌≡◌, ◌≢◌, refl, ◌∙◌, true, false, List, [], ◌∷◌, none, some, arith, length,
}
use micro_coin.Decimal.{Decimal, IsDecimal, nought, ◌⊕◌, ◌⊖◌, ◌≼◌, ◌≺◌, greater_than, min_of}
use micro_coin.Decimal.Laws.{lt_of_lt_of_le, sub_add_cancel, le_cases, le_trans, le_add, le_of_lt}
use micro_coin.Models.{uuid_nil}
use micro_coin.Limitbook.Side.{remove_in, remove_from_side, get_best_level}
use micro_coin.Limitbook.Match.Trading.{trade, trade-remaining, trade-filled, trade-qty}
use micro_coin.Limitbook.Match.{
  Matching, returned, panicked, out_of_fuel, fill_level, match_loop, open_qty, beyond, drop_empty,
  execute, settle,
}

module _ {D : Type 0} ⦃dec : Decimal D⦄ ⦃laws : IsDecimal D⦄ where
  pub loop_hangs :
      (fuel taker l : ℕ) (s : Matching D)
      → greater_than s.remaining nought ≡ true
      → get_best_level s.side ≡ some l
      → beyond (s.memory.order_at taker) (s.memory.level_at l).price ≡ false
      → (s.memory.level_at l).orders ≡ []
      → remove_in s.memory uuid_nil s.side.levels ≡ none
      → match_loop fuel taker s ≡ (out_of_fuel, s)
  unfolding match_loop fill_level remove_from_side
  loop_hangs zero taker l s more best ok empty gone = refl
  loop_hangs (suc fuel) taker l s more best ok empty gone =
      ground (arith, loop_hangs fuel taker l s more best ok empty gone)

  pub drop_empty-remaining : (l : ℕ) (s : Matching D) → (drop_empty l s).remaining ≡ s.remaining
  drop_empty-remaining l s = ground arith

  pub drop_empty-trades : (l : ℕ) (s : Matching D) → (drop_empty l s).trades ≡ s.trades
  drop_empty-trades l s = ground arith

  pub spent : (a : D) → a ⊖ a ≡ nought
  spent a = laws.sub-eq-add a a ∙ laws.add-neg a

  pub stop :
      (n taker l i : ℕ) (array : List ℕ) (s : Matching D)
      → s.remaining ≡ nought
      → fill_level n taker l i array s ≡ (returned, s)
  unfolding fill_level
  stop zero taker l i array s e = refl
  stop (suc n) taker l i array s e = ground (arith, (laws.cmp-eq s.remaining nought).1)

  -- The first order of a level can always be removed.
  first_trade_returns :
      (taker l maker : ℕ) (rest array : List ℕ) (x : D) (s : Matching D)
      → (s.memory.level_at l).orders ≡ maker ∷ rest
      → (trade taker l 0 maker array x s).0 ≡ returned
  unfolding settle execute
  first_trade_returns taker l maker rest array x s e = ground arith

  pub min_eq : (a b : D) → a ≼ b → min_of a b ≡ a
  min_eq a b h = ground arith

  -- The first maker of a level takes the whole of what remains.
  first_fills :
      (taker l maker : ℕ) (rest : List ℕ) (s : Matching D)
      → nought ≺ s.remaining
      → (s.memory.level_at l).orders ≡ maker ∷ rest
      → s.remaining ≼ open_qty (s.memory.order_at maker)
      → fill_level (suc (length rest)) taker l 0 (maker ∷ rest) s
        ≡ (returned, (trade taker l 0 maker (maker ∷ rest) s.remaining s).2)
  unfolding fill_level
  first_fills taker l maker rest s pos orders fits =
      let x = s.remaining in
      let t = trade taker l 0 maker (maker ∷ rest) x s in
      let a = open_qty (s.memory.order_at maker) in
      let live : nought ≺ a = lt_of_lt_of_le nought x a pos fits in
      ground (
        arith,
        (laws.cmp_swap x nought).1,
        (laws.cmp_swap a nought).1,
        first_trade_returns taker l maker rest (maker ∷ rest) x s orders,
        stop (length rest) taker l 1 t.1 t.2
            (trade-remaining taker l 0 maker (maker ∷ rest) x s ∙ spent x),
      )

  pub loop_fills :
      (fuel taker l maker : ℕ) (rest : List ℕ) (s : Matching D)
      → nought ≺ s.remaining
      → get_best_level s.side ≡ some l
      → beyond (s.memory.order_at taker) (s.memory.level_at l).price ≡ false
      → (s.memory.level_at l).orders ≡ maker ∷ rest
      → s.remaining ≼ open_qty (s.memory.order_at maker)
      → match_loop (suc (suc fuel)) taker s
        ≡ (returned, drop_empty l (trade taker l 0 maker (maker ∷ rest) s.remaining s).2)
  unfolding match_loop
  loop_fills fuel taker l maker rest s pos best ok orders fits =
      let t = trade taker l 0 maker (maker ∷ rest) s.remaining s in
      let done : (drop_empty l t.2).remaining ≡ nought =
        drop_empty-remaining l t.2
        ∙ trade-remaining taker l 0 maker (maker ∷ rest) s.remaining s
        ∙ spent s.remaining in
      ground (
        arith,
        (laws.cmp_swap s.remaining nought).1,
        first_fills taker l maker rest s pos orders fits,
        done,
        (laws.cmp-eq (drop_empty l t.2).remaining nought).1,
      )

  le_sub : (a b r : D) → a ⊕ b ≼ r → b ≼ r ⊖ a
  le_sub a b r h =
      let e : dec.cmp (b ⊕ a) (r ⊖ a ⊕ a) ≡ dec.cmp b (r ⊖ a) = laws.cmp-add b (r ⊖ a) a in
      rw (← e, sub_add_cancel r a, laws.add_comm b a) h

  pub filled_up : (f q : D) → f ⊕ (q ⊖ f) ≡ q
  filled_up f q = laws.add_comm f (q ⊖ f) ∙ sub_add_cancel q f

  first_removal :
      (taker l a b : ℕ) (s : Matching D)
      → (s.memory.level_at l).orders ≡ a ∷ b ∷ []
      → a ≢ taker
      → let t = trade taker l 0 a (a ∷ b ∷ []) (open_qty (s.memory.order_at a)) s in
        (t.0 ≡ returned) × (t.1 ≡ b ∷ b ∷ []) × ((t.2.memory.level_at l).orders ≡ b ∷ [])
  unfolding execute settle
  first_removal taker l a b s orders na =
      let o = s.memory.order_at a in
      ground (
        arith,
        filled_up o.filled_qty o.qty,
        (laws.cmp-eq (o.filled_qty ⊕ (o.qty ⊖ o.filled_qty)) o.qty).1,
      )

  second_removal :
      (taker l b : ℕ) (array : List ℕ) (s : Matching D)
      → (s.memory.level_at l).orders ≡ b ∷ []
      → b ≢ taker
      → (trade taker l 1 b array (open_qty (s.memory.order_at b)) s).0 ≡ panicked
  unfolding execute settle
  second_removal taker l b array s orders nb =
      let o = s.memory.order_at b in
      ground (
        arith,
        filled_up o.filled_qty o.qty,
        (laws.cmp-eq (o.filled_qty ⊕ (o.qty ⊖ o.filled_qty)) o.qty).1,
      )

  pub min_eq_right : (a b : D) → b ≼ a → min_of a b ≡ b
  min_eq_right a b h =
      ground
        (arith, le_cases b a h, (laws.cmp_swap a b).1, (laws.cmp-eq b a).0, (laws.cmp-eq a b).1)

  -- A level of two open orders that the taker fills completely: the second removal is out of range.
  pub two_fills_panic :
      (taker l a b : ℕ) (s : Matching D)
      → (s.memory.level_at l).orders ≡ a ∷ b ∷ []
      → a ≢ b
      → a ≢ taker
      → b ≢ taker
      → nought ≺ open_qty (s.memory.order_at a)
      → nought ≺ open_qty (s.memory.order_at b)
      → open_qty (s.memory.order_at a) ⊕ open_qty (s.memory.order_at b) ≼ s.remaining
      → (fill_level 2 taker l 0 (a ∷ b ∷ []) s).0 ≡ panicked
  unfolding fill_level
  two_fills_panic taker l a b s orders ne na nb pa pb enough =
      let oa = open_qty (s.memory.order_at a) in
      let ob = open_qty (s.memory.order_at b) in
      let t = trade taker l 0 a (a ∷ b ∷ []) oa s in
      let (returns, array, rest) = first_removal taker l a b s orders na in
      let same : open_qty (t.2.memory.order_at b) ≡ ob = ground (
        arith,
        trade-filled taker l 0 a (a ∷ b ∷ []) oa s b nb,
        trade-qty taker l 0 a (a ∷ b ∷ []) oa s b,
      ) in
      let left : t.2.remaining ≡ s.remaining ⊖ oa = trade-remaining taker l 0 a (a ∷ b ∷ []) oa s in
      let fits_a : oa ≼ s.remaining =
        le_trans oa (oa ⊕ ob) s.remaining (le_add oa ob (le_of_lt nought ob pb)) enough in
      let fits_b : ob ≼ t.2.remaining = rw left (le_sub oa ob s.remaining enough) in
      let pos = lt_of_lt_of_le nought oa s.remaining pa fits_a in
      let pos' = lt_of_lt_of_le nought ob t.2.remaining pb fits_b in
      let ends : (trade taker l 1 b t.1 ob t.2).0 ≡ panicked =
        rw same at (second_removal taker l b t.1 t.2 rest nb) in
      ground (
        arith,
        returns,
        array,
        ends,
        same,
        (laws.cmp_swap s.remaining nought).1,
        (laws.cmp_swap oa nought).1,
        (laws.cmp_swap ob nought).1,
        (laws.cmp_swap t.2.remaining nought).1,
        min_eq_right s.remaining oa fits_a,
        min_eq_right t.2.remaining ob fits_b,
      )
