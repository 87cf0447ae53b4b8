-- ===== src/Limitbook/Side.antt =====
-- internal/limitbook/orderbook.go: `BookSide`. The map from price texts to levels is an association
-- list; Go visits a map in no fixed order, here it is the list's.
pub mod Kept
pub mod Ordered
pub mod Removal
use text.Mathlib.Text.{◌==◌ as str_eq}
use micro_coin.Base.{
  ℕ, suc, Bool, true, false, List, [], ◌∷◌, ◌++◌, Option, none, some, String, ◌==◌, if◌then◌else◌,
  length,
}
use micro_coin.Decimal.{Decimal}
use micro_coin.Limitbook.Memory.{Memory, write_level, write_orders}
use micro_coin.Limitbook.PriceHeap.{new_price_heap, push}

pub record BookSide : Type 0 where
  pub levels : List (String × ℕ)
  pub heap : List ℕ

abbrev pub new_book_side : Bool → BookSide
new_book_side is_bid = record { levels = []; heap = new_price_heap is_bid }

unfoldable pub get_best_level : BookSide → Option ℕ
get_best_level bs = elim bs.heap [ [] ↦ none | l ∷ ls ↦ some l ]

abbrev pub lookup : String → List (String × ℕ) → Option ℕ
lookup k [] = none
lookup k ((j, l) ∷ ls) = if str_eq j k then some l else lookup k ls

-- `delete(bs.levels, priceStr)`
abbrev pub delete : String → List (String × ℕ) → List (String × ℕ)
delete k [] = []
delete k ((j, l) ∷ ls) = if str_eq j k then ls else (j, l) ∷ delete k ls

module _ {D : Type 0} ⦃dec : Decimal D⦄ where
  -- The level of a price, made and pushed on the heap if there is none.
  unfoldable pub level_for : D → Memory D → BookSide → ℕ × Memory D × BookSide
  level_for p m bs = elim (lookup (dec.text p) bs.levels) [
    | some l ↦ (l, m, bs)
    | none ↦
        let l = m.next_level in
        let m' =
          write_level l (record { price = p; orders = [] }) (record m { next_level = suc l }) in
        (l, m', record { levels = (dec.text p, l) ∷ bs.levels; heap = push m' bs.heap l })
  ]

  -- `none` is the panic of `order.Price.String()` at a nil price.
  unfoldable pub add_to_side : Memory D → BookSide → ℕ → Option (Memory D × BookSide)
  unfolding level_for
  add_to_side m bs r = elim (m.order_at r).price [
    | none ↦ none
    | some p ↦
        let (l, m', bs') = level_for p m bs in
        some (write_orders l ((m'.level_at l).orders ++ r ∷ []) m', bs')
  ]

module _ {D : Type 0} where
  -- The orders of a level without the first of the given id.
  unfoldable pub without_id : Memory D → ℕ → List ℕ → Option (List ℕ)
  without_id m id [] = none
  without_id m id (r ∷ rs) =
      if (m.order_at r).id == id
      then some rs
      else elim (without_id m id rs) [ none ↦ none | some rest ↦ some (r ∷ rest) ]

  unfoldable pub remove_in : Memory D → ℕ → List (String × ℕ) → Option (String × ℕ × List ℕ)
  unfolding without_id
  remove_in m id [] = none
  remove_in m id ((k, l) ∷ ls) = elim (without_id m id (m.level_at l).orders) [
    | none ↦ remove_in m id ls
    | some rest ↦ some (k, l, rest)
  ]

  -- `RemoveOrder`: the level leaves the map when it is empty, and stays in the heap.
  unfoldable pub remove_from_side : Memory D → BookSide → ℕ → Bool × Memory D × BookSide
  unfolding remove_in
  remove_from_side m bs id = elim (remove_in m id bs.levels) [
    | none ↦ (false, m, bs)
    | some (k, l, rest) ↦ (
      true,
      write_orders l rest m,
      if length rest == 0 then record bs { levels = delete k bs.levels } else bs,
    )
  ]

  unfoldable pub get_best_price : Memory D → BookSide → Option D
  get_best_price m bs = elim bs.heap [ [] ↦ none | l ∷ ls ↦ some (m.level_at l).price ]
