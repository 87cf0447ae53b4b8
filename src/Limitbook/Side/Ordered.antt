-- ===== src/Limitbook/Side/Ordered.antt =====
-- internal/limitbook/orderbook.go: the best level of a side.
use micro_coin.Base.{
  ℕ, suc, ◌<◌, ◌≡◌, refl, ap, String, Option-cases, inl, inr, List, [], ◌∷◌, ◌++◌, some, arith,
  ==_refl, length, length-append, get_or, ℕ-cases,
}
use micro_coin.Decimal.{Decimal, IsDecimal, ◌≼◌}
use micro_coin.Limitbook.Memory.{Memory, write_level, write_orders}
use micro_coin.Limitbook.PriceHeap.{push}
use micro_coin.Limitbook.PriceHeap.Order.{parent, price_at, IsHeap, root_least}
use micro_coin.Limitbook.PriceHeap.Push.{
  Covers, Covers-trans, push-Restored, get_or-append, le_along,
}
use micro_coin.Limitbook.Side.{BookSide, lookup, level_for, add_to_side, get_best_price}

get_or_last : (h : List ℕ) (l : ℕ) → get_or (h ++ l ∷ []) (length h) 0 ≡ l
get_or_last [] l = refl
get_or_last (x ∷ h) l = get_or_last h l

module _ {D : Type 0} ⦃dec : Decimal D⦄ ⦃laws : IsDecimal D⦄ where
  -- The heap is in order, and its levels have been made.
  pub record IsOrdered (m : Memory D) (h : List ℕ) : Type 0 where
    pub heap : IsHeap m h
    pub known : (i : ℕ) → i < length h → get_or h i 0 < m.next_level

  -- Memories with the same prices at the levels of a heap.
  IsHeap-along :
      (m m' : Memory D) (h : List ℕ)
      → ((i : ℕ) → i < length h → price_at m' h i ≡ price_at m h i)
      → IsHeap m h
      → IsHeap m' h
  IsHeap-along m m' h same o c p q = le_along (same (parent c) (omega arith)) (same c q) (o c p q)

  -- A new level on the heap.
  push-IsOrdered :
      (m m' : Memory D) (h : List ℕ)
      → m'.next_level ≡ suc m.next_level
      → ((k : ℕ) → k < m.next_level → (m'.level_at k).price ≡ (m.level_at k).price)
      → IsOrdered m h
      → IsOrdered m' (push m' h m.next_level) × Covers h (push m' h m.next_level)
  push-IsOrdered m m' h next same v =
      let l = m.next_level in
      let o' = IsHeap-along m m' h (λ i p. same (get_or h i 0) (v.known i p)) v.heap in
      let r = push-Restored m' h l o' in
      (
        record { heap = r.ordered; known = known r.sources },
        Covers-trans h (h ++ l ∷ []) (push m' h l)
            (λ i p. (i, omega (arith, length-append h (l ∷ [])), get_or-append h (l ∷ []) i p))
            r.covers,
      )
    where
      -- An entry is an old one or the new one.
      below :
          (i : ℕ)
          → i < length (h ++ m.next_level ∷ [])
          → get_or (h ++ m.next_level ∷ []) i 0 < m'.next_level
      below i p = elim (ℕ-cases i (length h)) [
        | inl e ↦ omega (
          arith,
          next,
          get_or_last h m.next_level,
          ap (λ k. get_or (h ++ m.next_level ∷ []) k 0) e,
        )
        | inr n ↦
            let inside : i < length h = omega (arith, length-append h (m.next_level ∷ [])) in
            omega (arith, next, v.known i inside, get_or-append h (m.next_level ∷ []) i inside)
      ]

      known :
          Covers (push m' h m.next_level) (h ++ m.next_level ∷ [])
          → (i : ℕ) → i < length (push m' h m.next_level)
          → get_or (push m' h m.next_level) i 0 < m'.next_level
      known from i p = let (k, q, e) = from i p in omega (arith, below k q)

  level_for-IsOrdered :
      (p : D) (m : Memory D) (bs : BookSide)
      → IsOrdered m bs.heap
      → let (l, m', bs') = level_for p m bs in IsOrdered m' bs'.heap × Covers bs.heap bs'.heap
  unfolding level_for
  level_for-IsOrdered p m bs v = elim (Option-cases (lookup (dec.text p) bs.levels)) [
    | inr (l, found) ↦ rw (level_for, found) (v, λ i q. (i, q, refl))
    | inl missing ↦
        let l = m.next_level in
        let m' =
          write_level l (record { price = p; orders = [] }) (record m { next_level = suc l }) in
        rw (level_for, missing) (push-IsOrdered m m' bs.heap refl (λ k q. ground arith) v)
  ]

  write_orders-IsOrdered :
      (m : Memory D) (h : List ℕ) (l : ℕ) (rs : List ℕ)
      → IsOrdered m h
      → IsOrdered (write_orders l rs m) h
  write_orders-IsOrdered m h l rs v = record {
    heap = IsHeap-along m (write_orders l rs m) h (λ i p. price_kept l (get_or h i 0)) v.heap;
    known = v.known;
  }
    where
      price_kept : (l k : ℕ) → ((write_orders l rs m).level_at k).price ≡ (m.level_at k).price
      price_kept l k = elim (ℕ-cases l k) [ inl e ↦ rw (e, ==_refl k) refl | inr n ↦ ground arith ]

  best :
      (m : Memory D) (ls : List (String × ℕ)) (h : List ℕ)
      → IsHeap m h
      → (i : ℕ) → i < length h
      → (p : D) × (get_best_price m (record { levels = ls; heap = h }) ≡ some p)
        × (p ≼ price_at m h i)
  unfolding get_best_price
  best m ls [] o i q = absurd (omega arith)
  best m ls (l ∷ h) o i q = ((m.level_at l).price, refl, root_least m (l ∷ h) i o q)

  -- `AddOrder` on a side whose heap is in order keeps it so, and loses no level of it; and `GetBestPrice`
  -- then gives a price that no level on the heap undercuts, on the side of the bids as well as on the
  -- side of the asks.
  pub get_best_price-add_to_side :
      (m m' : Memory D) (bs bs' : BookSide) (r : ℕ)
      → add_to_side m bs r ≡ some (m', bs')
      → IsOrdered m bs.heap
      → IsOrdered m' bs'.heap
        × Covers bs.heap bs'.heap
        × ((i : ℕ)
            → i < length bs'.heap
            → (p : D) × (get_best_price m' bs' ≡ some p) × (p ≼ price_at m' bs'.heap i))
  unfolding add_to_side get_best_price
  get_best_price-add_to_side m m' bs bs' r added v = elim (Option-cases (m.order_at r).price) [
    | inl missing ↦ absurd (ground arith)
    | inr (p, given) ↦
        let (l, made, side) = level_for p m bs in
        let (v', covers) = level_for-IsOrdered p m bs v in
        let rs = (made.level_at l).orders ++ r ∷ [] in
        let run : add_to_side m bs r ≡ some (write_orders l rs made, side) =
          rw (add_to_side, given) refl in
        let same_memory : m' ≡ write_orders l rs made = cc (added, run) in
        let same_side : bs' ≡ side = cc (added, run) in
        let v'' : IsOrdered m' bs'.heap =
          rw (same_memory, same_side) (write_orders-IsOrdered made side.heap l rs v') in
        (v'', rw same_side covers, best m' bs'.levels bs'.heap v''.heap)
  ]
