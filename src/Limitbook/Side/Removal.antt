-- ===== src/Limitbook/Side/Removal.antt =====
-- Orders that have been added can be removed.
use micro_coin.Base.{
  ℕ, suc, ◌≡◌, ◌≢◌, refl, true, List, [], ◌∷◌, ◌++◌, String, none, some, arith, ==_refl,
  Option-cases, inl, inr,
}
use micro_coin.Base.Text.{str_eq_refl}
use micro_coin.Decimal.{Decimal}
use micro_coin.Limitbook.Memory.{Memory, write_level, write_orders}
use micro_coin.Limitbook.Side.{
  BookSide, lookup, level_for, add_to_side, without_id, remove_in, remove_from_side,
}

module _ {D : Type 0} (m : Memory D) (id : ℕ) where
  without_id-append :
      (r : ℕ) (rs : List ℕ) → (m.order_at r).id ≡ id → without_id m id (rs ++ r ∷ []) ≢ none
  unfolding without_id
  without_id-append r [] e = ground arith
  without_id-append r (s ∷ rs) e = ground (arith, without_id-append r rs e)

  -- A level of the map that holds the order is enough for the search to find one.
  remove_in_finds :
      (k : String) (l : ℕ) (ls : List (String × ℕ))
      → lookup k ls ≡ some l
      → without_id m id (m.level_at l).orders ≢ none
      → remove_in m id ls ≢ none
  unfolding remove_in
  remove_in_finds k l [] h n = cc
  remove_in_finds k l ((j, l') ∷ ls) h n = ground (arith, remove_in_finds k l ls)

  remove_from_side_found :
      (bs : BookSide) → remove_in m id bs.levels ≢ none → (remove_from_side m bs id).0 ≡ true
  unfolding remove_from_side
  remove_from_side_found bs h = ground arith

module _ {D : Type 0} ⦃dec : Decimal D⦄ (m : Memory D) (bs : BookSide) (r : ℕ) where
  -- The order is then in the level of its price, and that level is in the map.
  placed :
      (k : String) (l : ℕ) (ls : List (String × ℕ))
      → lookup k ls ≡ some l
      → remove_in (write_orders l ((m.level_at l).orders ++ r ∷ []) m) (m.order_at r).id ls ≢ none
  placed k l ls h =
      let m' = write_orders l ((m.level_at l).orders ++ r ∷ []) m in
      let here : (m'.level_at l).orders ≡ (m.level_at l).orders ++ r ∷ [] =
        ground (arith, ==_refl l) in
      let added = without_id-append m' (m.order_at r).id r (m.level_at l).orders refl in
      remove_in_finds m' (m.order_at r).id k l ls h (rw here added)

  text_found : (k : String) (l : ℕ) (ls : List (String × ℕ)) → lookup k ((k, l) ∷ ls) ≡ some l
  text_found k l ls = ground (arith, str_eq_refl k)

module _ {D : Type 0} ⦃dec : Decimal D⦄ where
  pub remove_in-add_to_side :
      (m m' : Memory D) (bs bs' : BookSide) (r : ℕ)
      → add_to_side m bs r ≡ some (m', bs')
      → remove_in m' (m.order_at r).id bs'.levels ≢ none
  unfolding add_to_side level_for
  remove_in-add_to_side m m' bs bs' r h = elim (Option-cases (m.order_at r).price) [
    | inl e ↦ absurd (ground arith)
    | inr (p, e) ↦ elim (Option-cases (lookup (dec.text p) bs.levels)) [
      | inr (l, e') ↦ ground (arith, placed m bs r (dec.text p) l bs.levels e')
      | inl e' ↦
          let l = m.next_level in
          let fresh =
            write_level l (record { price = p; orders = [] }) (record m { next_level = suc l }) in
          ground (
            arith,
            placed fresh bs r (dec.text p) l ((dec.text p, l) ∷ bs.levels)
                (text_found m bs r (dec.text p) l bs.levels),
          )
    ]
  ]
