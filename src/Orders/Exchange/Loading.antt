-- ===== src/Orders/Exchange/Loading.antt =====
-- internal/orders/service.go: whether the service starts with the orders that the table holds.
use micro_coin.Base.{
  ℕ, suc, ◌≡◌, ◌⊎◌, inl, inr, refl, sym, ap, subst, ◌∙◌, if_split, Bool, true, false, ◌||◌, ◌&&◌,
  List, [], ◌∷◌, Option, none, some, Option-cases, Bool-cases, arith, ==_refl,
}
use micro_coin.Decimal.{Decimal}
use micro_coin.Models.{Symbol, is_btc_usd, btc_usd, eth_usd, Order, same_symbol, is_active}
use micro_coin.Database.World.{World, Result, ok}
use micro_coin.Database.Queries.{insert_row, order_by, rows_where}
use micro_coin.Database.Orders.{older, get_active_orders_by_symbol}
use micro_coin.Limitbook.Memory.{Memory}
use micro_coin.Limitbook.Side.{add_to_side}
use micro_coin.Limitbook.Book.{OrderBook, new_order_book, add_order}
use micro_coin.Quotes.{QuoteService}
use micro_coin.Orders.Exchange.{
  Exchange, book_of, with_book, allocate, load_orders, load_book, load_orders_into_books,
  new_service,
}

module _ {D : Type 0} where
  abbrev pub is_unpriced : Order D → Bool
  is_unpriced o = elim o.price [ none ↦ true | some p ↦ false ]

  abbrev pub any_unpriced : List (Order D) → Bool
  any_unpriced [] = false
  any_unpriced (o ∷ os) = is_unpriced o || any_unpriced os

  -- Whether an active order of the symbol has no price.
  abbrev pub blocks : Symbol → World D → Bool
  blocks symbol w =
      any_unpriced
        (rows_where (λ o. same_symbol o.symbol symbol && is_active o.status) w.tables.orders)

-- `none`, a panic, if the test is true, else something.
abbrev Loads : {A : Type 0} → Bool → Option A → Type 0
Loads true r = r ≡ none
Loads {A} false r = (z : A) × (r ≡ some z)

unpriced-insert_row :
    {D : Type 0} (o : Order D) (os : List (Order D))
    → any_unpriced (insert_row older o os) ≡ (is_unpriced o || any_unpriced os)
unpriced-insert_row o [] = refl
unpriced-insert_row o (p ∷ ps) = ground (arith, unpriced-insert_row o ps)

unpriced-order_by :
    {D : Type 0} (os : List (Order D)) → any_unpriced (order_by older os) ≡ any_unpriced os
unpriced-order_by [] = refl
unpriced-order_by (o ∷ os) =
    unpriced-insert_row o (order_by older os) ∙ ap (λ b. is_unpriced o || b) (unpriced-order_by os)

module _ {D : Type 0} ⦃dec : Decimal D⦄ where
  add_order_unpriced :
      (m : Memory D) (b : OrderBook) (p : ℕ)
      → is_unpriced (m.order_at p) ≡ true
      → add_order m b p ≡ none
  unfolding add_order add_to_side
  add_order_unpriced m b p h = ground arith

  add_order_priced :
      (m : Memory D) (b : OrderBook) (p : ℕ)
      → add_order m b p ≡ none
      → is_unpriced (m.order_at p) ≡ true
  unfolding add_order add_to_side
  add_order_priced m b p h = ground arith

  load_orders_cases :
      (os : List (Order D)) (m : Memory D) (b : OrderBook)
      → Loads (any_unpriced os) (load_orders os m b)
  unfolding load_orders
  load_orders_cases [] m b = ((m, b), refl)
  load_orders_cases (o ∷ os) m b =
      let p = (allocate o m).0 in
      let m' = (allocate o m).1 in
      let there : is_unpriced (m'.order_at p) ≡ is_unpriced o = rw (==_refl p) refl in
      elim (Option-cases (add_order m' b p)) [
        | inl e ↦
            let h : is_unpriced o ≡ true = sym there ∙ add_order_priced m' b p e in
            rw (load_orders, h, e) refl
        | inr ((m'', b'), e) ↦ elim (Bool-cases (is_unpriced o)) [
          | inl h ↦ let none_ = add_order_unpriced m' b p (there ∙ h) in absurd cc
          | inr h ↦ rw (load_orders, h, e) (load_orders_cases os m'' b')
        ]
      ]

  rows : Symbol → World D → List (Order D)
  rows symbol w =
      order_by older
        (rows_where (λ o. same_symbol o.symbol symbol && is_active o.status) w.tables.orders)

  rows_read :
      (symbol : Symbol) (w : World D)
      → w.fails w.calls ≡ false
      → get_active_orders_by_symbol symbol w
        ≡ (ok (rows symbol w), record w { calls = suc w.calls })
  unfolding get_active_orders_by_symbol rows
  rows_read symbol w h = ground (arith, h)

  world_of-with_book :
      (symbol : Symbol) (b : OrderBook) (x : Exchange D) → (with_book symbol b x).world ≡ x.world
  world_of-with_book symbol b x =
      if_split (λ (y : Exchange D). y.world ≡ x.world) (is_btc_usd symbol) (λ _. refl) (λ _. refl)

  load_book_cases :
      (symbol : Symbol) (x : Exchange D)
      → x.world.fails x.world.calls ≡ false
      → (blocks symbol x.world ≡ true) × (load_book symbol x ≡ none)
        ⊎ (blocks symbol x.world ≡ false)
          × ((x' : Exchange D) × (load_book symbol x ≡ some x')
              × (x'.world ≡ record x.world { calls = suc x.world.calls }))
  unfolding load_book rows
  load_book_cases symbol x h =
      let read = rows_read symbol x.world h in
      let same = unpriced-order_by (
        rows_where (λ o. same_symbol o.symbol symbol && is_active o.status)
          x.world.tables.orders) in
      let loads = load_orders_cases (rows symbol x.world) x.memory (book_of symbol x) in
      elim (Bool-cases (blocks symbol x.world)) [
        | inl e ↦
            let crash : load_orders (rows symbol x.world) x.memory (book_of symbol x) ≡ none =
              subst (λ b. Loads b (load_orders (rows symbol x.world) x.memory (book_of symbol x)))
                (same ∙ e) loads in
            inl (e, rw (load_book, read, crash) refl)
        | inr e ↦
            let ((m, b), done) =
              subst (λ b. Loads b (load_orders (rows symbol x.world) x.memory (book_of symbol x)))
                (same ∙ e) loads in
            let x' =
              with_book symbol b
                (record x { world = (get_active_orders_by_symbol symbol x.world).1; memory = m }) in
            let read_rows = ap (λ (v : Result (List (Order D)) × World D). v.0) read in
            inr (
              e,
              (
                x',
                rw (load_book, read_rows, done) refl,
                world_of-with_book symbol b _
                    ∙ ap (λ (v : Result (List (Order D)) × World D). v.1) read,
              ),
            )
      ]

  -- When the server answers the two queries of the start, the service starts unless the table holds an
  -- active order of one of the two symbols without a price, and then it panics: one such order, as
  -- `CreateOrder` leaves it for a market order that is not filled, keeps the server from starting.
  pub new_service_cases :
      (w : World D) (m : Memory D) (quotes : QuoteService D)
      → w.fails w.calls ≡ false
      → w.fails (suc w.calls) ≡ false
      → ((blocks btc_usd w || blocks eth_usd w) ≡ true) × (new_service w m quotes ≡ none)
        ⊎ ((blocks btc_usd w || blocks eth_usd w) ≡ false)
          × ((x : Exchange D) × (new_service w m quotes ≡ some x) × (x.world.tables ≡ w.tables))
  unfolding new_service load_orders_into_books
  new_service_cases w m quotes h h' =
      let x : Exchange D = record {
        world = w;
        memory = m;
        btc_book = new_order_book btc_usd;
        eth_book = new_order_book eth_usd;
        quotes = quotes;
      } in
      elim (load_book_cases btc_usd x h) [
        | inl (e, crash) ↦ inl (rw e refl, rw (new_service, load_orders_into_books, crash) refl)
        | inr (e, (x', one_, same)) ↦
            let same_blocks : blocks eth_usd x'.world ≡ blocks eth_usd w = rw same refl in
            elim (load_book_cases eth_usd x' (rw same h')) [
              | inl (e', crash) ↦ inl (
                rw (e, sym same_blocks ∙ e') refl,
                rw (new_service, load_orders_into_books, one_, crash) refl,
              )
              | inr (e', (x'', two_, same')) ↦ inr (
                rw (e, sym same_blocks ∙ e') refl,
                (
                  x'',
                  rw (new_service, load_orders_into_books, one_, two_) refl,
                  ap (λ (v : World D). v.tables) same' ∙ ap (λ (v : World D). v.tables) same,
                ),
              )
            ]
      ]
