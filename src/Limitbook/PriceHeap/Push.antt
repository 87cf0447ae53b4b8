-- ===== src/Limitbook/PriceHeap/Push.antt =====
-- internal/limitbook/heap.go: `heap.Push` and the heap order.
use micro_coin.Base.{
  ℕ, zero, suc, ◌<◌, ◌≡◌, ◌∙◌, refl, sym, ap, true, false, Bool-cases, inl, inr, List, [], ◌∷◌,
  ◌++◌, arith, ◌==◌, length, length-append, get_or, ℕ-cases, not, ◌||◌,
}
use micro_coin.Decimal.{Decimal, IsDecimal, ◌≼◌, ◌≺◌}
use micro_coin.Decimal.Laws.{le_of_not_lt}
use micro_coin.Limitbook.Memory.{Memory}
use micro_coin.Limitbook.PriceHeap.{swap, less, up_loop, push}
use micro_coin.Limitbook.PriceHeap.Order.{
  parent, length-swap, get_or-swap, price_at, IsHeap, UpInv, swap-UpInv,
}

pub get_or-append : (xs ys : List ℕ) (i : ℕ) → i < length xs → get_or (xs ++ ys) i 0 ≡ get_or xs i 0
get_or-append [] ys i h = absurd (omega arith)
get_or-append (x ∷ xs) ys zero h = refl
get_or-append (x ∷ xs) ys (suc i) h = get_or-append xs ys i (omega arith)

-- Every entry of the first heap is in the second.
abbrev pub Covers : List ℕ → List ℕ → Type 0
Covers h h' = (i : ℕ) → i < length h → (k : ℕ) × (k < length h') × (get_or h' k 0 ≡ get_or h i 0)

swap-Covers : (h : List ℕ) (i j : ℕ) → i < length h → j < length h → Covers h (swap h i j)
swap-Covers h i j p q k r = elim (ℕ-cases k j) [
  | inl e ↦ (i, omega (arith, length-swap h i j), rw e (ground (arith, get_or-swap h i j i p q)))
  | inr n ↦ elim (ℕ-cases k i) [
    | inl e ↦ (j, omega (arith, length-swap h i j), ground (arith, get_or-swap h i j j p q))
    | inr n' ↦ (k, omega (arith, length-swap h i j), ground (arith, get_or-swap h i j k p q))
  ]
]

swap-sources : (h : List ℕ) (i j : ℕ) → i < length h → j < length h → Covers (swap h i j) h
swap-sources h i j p q k r = elim (ℕ-cases k j) [
  | inl e ↦ (i, p, sym (get_or-swap h i j k p q ∙ ground arith))
  | inr n ↦ elim (ℕ-cases k i) [
    | inl e ↦ (j, q, sym (get_or-swap h i j k p q ∙ ground arith))
    | inr n' ↦ (k, omega (arith, length-swap h i j), sym (get_or-swap h i j k p q ∙ ground arith))
  ]
]

pub Covers-trans : (h h' h'' : List ℕ) → Covers h h' → Covers h' h'' → Covers h h''
Covers-trans h h' h'' f g i p =
    let (k, q, e) = f i p in let (k', q', e') = g k q in (k', q', e' ∙ e)

module _ {D : Type 0} ⦃dec : Decimal D⦄ ⦃laws : IsDecimal D⦄ where
  -- A heap with the entries of the first.
  pub record Restored (m : Memory D) (h h' : List ℕ) : Type 0 where
    pub ordered : IsHeap m h'
    pub same_length : length h' ≡ length h
    pub covers : Covers h h'
    pub sources : Covers h' h

  stopped :
      (m : Memory D) (h : List ℕ) (j : ℕ)
      → UpInv m h j
      → (parent j == j || not (less m h j (parent j))) ≡ true
      → IsHeap m h
  unfolding less
  stopped m h j v stop c p q = elim (ℕ-cases c j) [
    | inl e ↦ rw e (
        le_of_not_lt (price_at m h (parent j)) (price_at m h j)
          (λ below. let apart : (parent j == j) ≡ false = ground arith in ground arith))
    | inr n ↦ v.edges c p q n
  ]

  moved :
      (m : Memory D) (h : List ℕ) (j : ℕ)
      → (parent j == j || not (less m h j (parent j))) ≡ false
      → (0 < j) × (price_at m h j ≺ price_at m h (parent j))
  unfolding less
  moved m h j on = (ground arith, ground arith)

  up_loop-Restored :
      (k : ℕ) (m : Memory D) (h : List ℕ) (j : ℕ)
      → j < k
      → UpInv m h j
      → Restored m h (up_loop k m h j)
  unfolding up_loop
  up_loop-Restored zero m h j f v = absurd (omega arith)
  up_loop-Restored (suc k) m h j f v =
      elim (Bool-cases (parent j == j || not (less m h j (parent j)))) [
        | inl stop ↦
            rw (up_loop, stop)
              (record {
                ordered = stopped m h j v stop;
                same_length = refl;
                covers = λ i p. (i, p, refl);
                sources = λ i p. (i, p, refl);
              })
        | inr on ↦
            let (pos, below) = moved m h j on in
            let above : parent j < length h = omega (arith, v.inside) in
            let h' = swap h (parent j) j in
            let done =
              up_loop-Restored k m h' (parent j) (omega arith) (swap-UpInv m h j v pos below) in
            rw (up_loop, on)
              (record {
                ordered = done.ordered;
                same_length = done.same_length ∙ length-swap h (parent j) j;
                covers =
                    Covers-trans h h' (up_loop k m h' (parent j))
                      (swap-Covers h (parent j) j above v.inside) done.covers;
                sources =
                    Covers-trans (up_loop k m h' (parent j)) h' h done.sources
                      (swap-sources h (parent j) j above v.inside);
              })
      ]

  price_at-append :
      (m : Memory D) (h : List ℕ) (l i : ℕ)
      → i < length h
      → price_at m (h ++ l ∷ []) i ≡ price_at m h i
  price_at-append m h l i p = ap (λ k. (m.level_at k).price) (get_or-append h (l ∷ []) i p)

  pub le_along : {a a' b b' : D} → a' ≡ a → b' ≡ b → a ≼ b → a' ≼ b'
  le_along e f le = rw (e, f) le

  push-UpInv : (m : Memory D) (h : List ℕ) (l : ℕ) → IsHeap m h → UpInv m (h ++ l ∷ []) (length h)
  push-UpInv m h l o = record {
    inside = omega (arith, length-append h (l ∷ []));
    edges = λ c p q n.
        let inside : c < length h = omega (arith, length-append h (l ∷ [])) in
        le_along (price_at-append m h l (parent c) (omega arith)) (price_at-append m h l c inside)
          (o c p inside);
    bridged = λ c p q e r. absurd (omega (arith, length-append h (l ∷ [])));
  }

  pub push-Restored :
      (m : Memory D) (h : List ℕ) (l : ℕ) → IsHeap m h → Restored m (h ++ l ∷ []) (push m h l)
  unfolding push
  push-Restored m h l o =
      up_loop-Restored (suc (length h)) m (h ++ l ∷ []) (length h) (omega arith)
        (push-UpInv m h l o)
