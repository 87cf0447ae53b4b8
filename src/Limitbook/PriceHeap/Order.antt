-- ===== src/Limitbook/PriceHeap/Order.antt =====
-- internal/limitbook/heap.go: the heap order, and a level that moves up.
use micro_coin.Base.{
  ℕ, zero, suc, ◌-◌, ◌/◌, ◌<◌, ◌≡◌, ◌≢◌, ◌∙◌, refl, inl, inr, List, arith, ◌==◌, ==_refl,
  if◌then◌else◌, length, get_or, set, ℕ-cases,
}
use micro_coin.Base.Arrays.{length-set, get_or-set, get_or_other}
use micro_coin.Decimal.{Decimal, IsDecimal, ◌≼◌, ◌≺◌}
use micro_coin.Decimal.Laws.{le_trans, le_of_lt, le_refl}
use micro_coin.Limitbook.Memory.{Memory}
use micro_coin.Limitbook.PriceHeap.{swap}

abbrev pub parent : ℕ → ℕ
parent c = (c - 1) / 2

pub length-swap : (h : List ℕ) (i j : ℕ) → length (swap h i j) ≡ length h
unfolding swap
length-swap h i j =
    length-set (set h i (get_or h j 0)) j (get_or h i 0) ∙ length-set h i (get_or h j 0)

pub get_or-swap :
    (h : List ℕ) (i j k : ℕ)
    → i < length h
    → j < length h
    → get_or (swap h i j) k 0
      ≡ (if k == j then get_or h i 0 else if k == i then get_or h j 0 else get_or h k 0)
unfolding swap
get_or-swap h i j k p q =
    let first = set h i (get_or h j 0) in
    let long : j < length first = omega (arith, length-set h i (get_or h j 0)) in
    ground (
      arith,
      get_or-set first j (get_or h i 0) 0 long,
      get_or_other first j k (get_or h i 0) 0,
      get_or-set h i (get_or h j 0) 0 p,
      get_or_other h i k (get_or h j 0) 0,
    )

module _ {D : Type 0} ⦃dec : Decimal D⦄ where
  -- The price of the level at an index.
  abbrev pub price_at : Memory D → List ℕ → ℕ → D
  price_at m h i = (m.level_at (get_or h i 0)).price

  -- No level is cheaper than its parent.
  abbrev pub IsHeap : Memory D → List ℕ → Type 0
  IsHeap m h = (c : ℕ) → 0 < c → c < length h → price_at m h (parent c) ≼ price_at m h c

  -- Only the edge above `j` may be out of order.
  pub record UpInv (m : Memory D) (h : List ℕ) (j : ℕ) : Type 0 where
    pub inside : j < length h
    pub edges : (c : ℕ) → 0 < c → c < length h → c ≢ j → price_at m h (parent c) ≼ price_at m h c
    pub bridged :
        (c : ℕ)
        → 0 < c
        → c < length h
        → parent c ≡ j
        → 0 < j
        → price_at m h (parent j) ≼ price_at m h c

  price_at-swap :
      (m : Memory D) (h : List ℕ) (i j k : ℕ)
      → i < length h
      → j < length h
      → price_at m (swap h i j) k
        ≡ (if k == j then price_at m h i else if k == i then price_at m h j else price_at m h k)
  price_at-swap m h i j k p q = ground (arith, get_or-swap h i j k p q)

module _ {D : Type 0} ⦃dec : Decimal D⦄ ⦃laws : IsDecimal D⦄ where
  module _ (m : Memory D) (h : List ℕ) (i j : ℕ) (p : i < length h) (q : j < length h) where
    at_second : price_at m (swap h i j) j ≡ price_at m h i
    at_second = price_at-swap m h i j j p q ∙ (rw (==_refl j) refl)

    at_first : i ≢ j → price_at m (swap h i j) i ≡ price_at m h j
    at_first n = price_at-swap m h i j i p q ∙ ground (arith, ==_refl i)

    at_other : (k : ℕ) → k ≢ i → k ≢ j → price_at m (swap h i j) k ≡ price_at m h k
    at_other k n n' = price_at-swap m h i j k p q ∙ ground arith

  pub swap-UpInv :
      (m : Memory D) (h : List ℕ) (j : ℕ)
      → UpInv m h j
      → 0 < j
      → price_at m h j ≺ price_at m h (parent j)
      → UpInv m (swap h (parent j) j) (parent j)
  swap-UpInv m h j v pos below = record {
    inside = omega (arith, v.inside, length-swap h (parent j) j);
    edges = edges;
    bridged = bridged;
  }
    where
      above : (parent j) < length h
      above = omega (arith, v.inside)

      apart : (parent j) ≢ j
      apart = omega arith

      first : price_at m (swap h (parent j) j) (parent j) ≡ price_at m h j
      first = at_first m h (parent j) j above v.inside apart

      second : price_at m (swap h (parent j) j) j ≡ price_at m h (parent j)
      second = at_second m h (parent j) j above v.inside

      other : (k : ℕ) → k ≢ (parent j) → k ≢ j → price_at m (swap h (parent j) j) k ≡ price_at m h k
      other = at_other m h (parent j) j above v.inside

      edges :
          (c : ℕ)
          → 0 < c
          → c < length (swap h (parent j) j)
          → c ≢ (parent j)
          → price_at m (swap h (parent j) j) (parent c) ≼ price_at m (swap h (parent j) j) c
      edges c p q n =
          let inside : c < length h = omega (arith, length-swap h (parent j) j) in
          elim (ℕ-cases c j) [
            | inl e ↦
                rw (e, first, second) (le_of_lt (price_at m h j) (price_at m h (parent j)) below)
            | inr n' ↦ elim (ℕ-cases (parent c) j) [
              | inl e ↦ rw (e, second, other c n n') (v.bridged c p inside e pos)
              | inr k ↦ elim (ℕ-cases (parent c) (parent j)) [
                | inl e ↦
                    let edge : price_at m h (parent j) ≼ price_at m h c =
                      rw e at (v.edges c p inside n') in
                    rw (e, first, other c n n')
                      (le_trans (price_at m h j) (price_at m h (parent j)) (price_at m h c)
                        (le_of_lt (price_at m h j) (price_at m h (parent j)) below) edge)
                | inr k' ↦ rw (other (parent c) k' k, other c n n') (v.edges c p inside n')
              ]
            ]
          ]

      bridged :
          (c : ℕ)
          → 0 < c
          → c < length (swap h (parent j) j)
          → parent c ≡ (parent j)
          → 0 < (parent j)
          → price_at m (swap h (parent j) j) (parent (parent j))
            ≼ price_at m (swap h (parent j) j) c
      bridged c p q e r =
          let inside : c < length h = omega (arith, length-swap h (parent j) j) in
          let up : price_at m h (parent (parent j)) ≼ price_at m h (parent j) =
            v.edges (parent j) r above apart in
          let top = other (parent (parent j)) (omega arith) (omega arith) in
          elim (ℕ-cases c j) [
            | inl e' ↦ rw (e', top, second) up
            | inr n' ↦
                let edge : price_at m h (parent j) ≼ price_at m h c =
                  rw e at (v.edges c p inside n') in
                rw (top, other c (omega arith) n')
                  (le_trans (price_at m h (parent (parent j))) (price_at m h (parent j))
                    (price_at m h c) up edge)
          ]

  root_least_below :
      (k : ℕ) (m : Memory D) (h : List ℕ) (i : ℕ)
      → IsHeap m h
      → i < k
      → i < length h
      → price_at m h 0 ≼ price_at m h i
  root_least_below zero m h i o f p = absurd (omega arith)
  root_least_below (suc k) m h zero o f p = le_refl (price_at m h 0)
  root_least_below (suc k) m h (suc i) o f p =
      le_trans (price_at m h 0) (price_at m h (parent (suc i))) (price_at m h (suc i))
        (root_least_below k m h (parent (suc i)) o (omega arith) (omega arith))
        (o (suc i) (omega arith) p)

  -- The root of a heap has the least price.
  pub root_least :
      (m : Memory D) (h : List ℕ) (i : ℕ)
      → IsHeap m h
      → i < length h
      → price_at m h 0 ≼ price_at m h i
  root_least m h i o p = root_least_below (suc i) m h i o (omega arith) p
