-- ===== src/Limitbook/Side/Kept.antt =====
-- What a removal from a side keeps: every order, and any property of the members of the levels.
use micro_coin.Base.{
  ℕ, ◌≡◌, Bool, true, false, List, [], ◌∷◌, String, Option, none, some, arith, All, ◌==◌,
  if◌then◌else◌, length, if_split,
}
use micro_coin.Limitbook.Memory.{Memory, PriceLevel, write_orders}
use micro_coin.Limitbook.Side.{BookSide, delete, without_id, remove_in, remove_from_side}

abbrev AllIn : (ℕ → Type 0) → Option (List ℕ) → Type 0
AllIn P none = Unit
AllIn P (some rs) = All P rs

abbrev AllRemoved : (ℕ → Type 0) → Option (String × ℕ × List ℕ) → Type 0
AllRemoved P none = Unit
AllRemoved P (some (k, l, rs)) = All P rs

module _ {D : Type 0} (P : ℕ → Type 0) (m : Memory D) (id : ℕ) where
  cons-AllIn :
      (r : ℕ) (o : Option (List ℕ))
      → P r
      → AllIn P o
      → AllIn P (elim o as (λ _. Option (List ℕ)) [ none ↦ none | some rest ↦ some (r ∷ rest) ])
  cons-AllIn r none h k = tt
  cons-AllIn r (some rest) h k = (h, k)

  without_id-All : (rs : List ℕ) → All P rs → AllIn P (without_id m id rs)
  unfolding without_id
  without_id-All [] h = tt
  without_id-All (r ∷ rs) h =
      if_split (AllIn P) ((m.order_at r).id == id) (λ _. h.1)
        (λ _. cons-AllIn r (without_id m id rs) h.0 (without_id-All rs h.1))

  found-AllRemoved :
      (k : String) (l : ℕ) (o : Option (List ℕ)) (later : Option (String × ℕ × List ℕ))
      → AllIn P o
      → AllRemoved P later
      → AllRemoved P (elim o as (λ _. Option (String × ℕ × List ℕ)) [
        | none ↦ later
        | some rest ↦ some (k, l, rest)
      ])
  found-AllRemoved k l none later h n = n
  found-AllRemoved k l (some rest) later h n = h

  remove_in-All :
      (ls : List (String × ℕ))
      → ((j : ℕ) → All P (m.level_at j).orders)
      → AllRemoved P (remove_in m id ls)
  unfolding remove_in
  remove_in-All [] h = tt
  remove_in-All ((k, l) ∷ ls) h =
      found-AllRemoved k l (without_id m id (m.level_at l).orders) (remove_in m id ls)
        (without_id-All (m.level_at l).orders (h l)) (remove_in-All ls h)

  write_orders-All :
      (l j : ℕ) (rest : List ℕ)
      → All P rest
      → All P (m.level_at j).orders
      → All P ((write_orders l rest m).level_at j).orders
  write_orders-All l j rest h k =
      if_split (λ (v : PriceLevel D). All P v.orders) (l == j) (λ _. h) (λ _. k)

  -- A removal brings no order into a level.
  pub remove_from_side-All :
      (bs : BookSide)
      → ((j : ℕ) → All P (m.level_at j).orders)
      → (j : ℕ) → All P ((remove_from_side m bs id).1.level_at j).orders
  unfolding remove_from_side
  remove_from_side-All bs h j = go (remove_in m id bs.levels) (remove_in-All bs.levels h)
    where
      go :
          (o : Option (String × ℕ × List ℕ))
          → AllRemoved P o
          → All P
              ((elim o as (λ _. Bool × Memory D × BookSide) [
                | none ↦ (false, m, bs)
                | some (k, l, rest) ↦ (
                  true,
                  write_orders l rest m,
                  if length rest == 0 then record bs { levels = delete k bs.levels } else bs,
                )
              ]).1.level_at
                j).orders
      go none k = h j
      go (some (key, l, rest)) k = write_orders-All l j rest k (h j)

module _ {D : Type 0} (m : Memory D) (bs : BookSide) (id : ℕ) where
  -- A removal touches no order.
  pub remove_from_side-order_at : (remove_from_side m bs id).1.order_at ≡ m.order_at
  unfolding remove_from_side
  remove_from_side-order_at = ground arith
