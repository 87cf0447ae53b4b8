-- ===== src/Limitbook/PriceHeap.antt =====
-- internal/limitbook/heap.go: `PriceHeap`, and `Push` of container/heap over it. The heap holds
-- pointers to levels. `NewPriceHeap` takes `isBid` and does not read it.
pub mod Order
pub mod Push
use micro_coin.Base.{
  ℕ, zero, suc, ◌-◌, ◌/◌, Bool, not, ◌||◌, List, [], ◌∷◌, ◌++◌, ◌==◌, if◌then◌else◌, length, get_or,
  Option, none, some, set,
}
use micro_coin.Decimal.{Decimal, less_than}
use micro_coin.Limitbook.Memory.{Memory}

abbrev pub new_price_heap : Bool → List ℕ
new_price_heap is_bid = []

unfoldable pub swap : List ℕ → ℕ → ℕ → List ℕ
swap h i j = set (set h i (get_or h j 0)) j (get_or h i 0)

-- The last entry and the others; no entry is an index out of range.
unfoldable pub pop : List ℕ → Option (ℕ × List ℕ)
pop [] = none
pop (l ∷ []) = some (l, [])
pop (l ∷ k ∷ h) = elim (pop (k ∷ h)) [ none ↦ none | some (last, rest) ↦ some (last, l ∷ rest) ]

module _ {D : Type 0} ⦃dec : Decimal D⦄ where
  -- `h[i].Price.LessThan(h[j].Price)`
  unfoldable pub less : Memory D → List ℕ → ℕ → ℕ → Bool
  less m h i j = less_than (m.level_at (get_or h i 0)).price (m.level_at (get_or h j 0)).price

  -- `up` of container/heap, on fuel: the index falls in each round.
  unfoldable pub up_loop : ℕ → Memory D → List ℕ → ℕ → List ℕ
  up_loop zero m h j = h
  up_loop (suc k) m h j =
      let i = (j - 1) / 2 in
      let rest = up_loop k m (swap h i j) i in if i == j || not (less m h j i) then h else rest

  -- `heap.Push`
  unfoldable pub push : Memory D → List ℕ → ℕ → List ℕ
  push m h l = up_loop (suc (length h)) m (h ++ l ∷ []) (length h)
