-- ===== src/Limitbook/Book/Removal.antt =====
-- `RemoveOrder` of a book after `AddOrder`.
use micro_coin.Base.{
  ℕ, ◌≡◌, ◌≢◌, true, false, none, some, arith, Option-cases, Bool-cases, inl, inr,
}
use micro_coin.Decimal.{Decimal}
use micro_coin.Models.{is_buy}
use micro_coin.Limitbook.Memory.{Memory}
use micro_coin.Limitbook.Side.{BookSide, add_to_side, remove_in, remove_from_side}
use micro_coin.Limitbook.Side.Removal.{remove_in-add_to_side}
use micro_coin.Limitbook.Book.{OrderBook, add_order, remove_order}

module _ {D : Type 0} (m : Memory D) (bs : BookSide) (id : ℕ) where
  found_of_remove_in : remove_in m id bs.levels ≢ none → (remove_from_side m bs id).0 ≡ true
  unfolding remove_from_side
  found_of_remove_in h = ground arith

  missed :
      (remove_from_side m bs id).0 ≡ false
      → ((remove_from_side m bs id).1 ≡ m) × ((remove_from_side m bs id).2 ≡ bs)
  unfolding remove_from_side
  missed h = ground arith

module _ {D : Type 0} ⦃dec : Decimal D⦄ where
  -- After an order has been added to a book without a panic, a removal by its id finds an order, on
  -- whichever side it was added and whatever the book held before.
  pub remove_order-add_order :
      (m m' : Memory D) (ob ob' : OrderBook) (r : ℕ)
      → add_order m ob r ≡ some (m', ob')
      → (remove_order m' ob' (m.order_at r).id).0 ≡ true
  unfolding add_order remove_order
  remove_order-add_order m m' ob ob' r h =
      let id = (m.order_at r).id in
      elim (Bool-cases (is_buy (m.order_at r).side)) [
        | inl b ↦ elim (Option-cases (add_to_side m ob.bids r)) [
          | inl e ↦ absurd (ground arith)
          | inr ((m₁, bs), e) ↦
              let there = found_of_remove_in m₁ bs id (remove_in-add_to_side m m₁ ob.bids bs r e) in
              ground arith
        ]
        | inr b ↦ elim (Option-cases (add_to_side m ob.asks r)) [
          | inl e ↦ absurd (ground arith)
          | inr ((m₁, bs), e) ↦
              let there = found_of_remove_in m₁ bs id (remove_in-add_to_side m m₁ ob.asks bs r e) in
              ground (arith, missed m₁ ob.bids id)
        ]
      ]
