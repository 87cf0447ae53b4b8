-- ===== src/Orders/Create/Market.antt =====
-- internal/orders/service.go: `CreateOrder` of an order without a price.
use micro_coin.Base.{
  ℕ, suc, ◌≡◌, ◌⊎◌, inl, inr, refl, sym, subst, Option-cases, none, true, false, [], arith,
  if_split, ==_refl, if◌then◌else◌,
}
use micro_coin.Decimal.{Decimal, IsDecimal, nought, less_than_or_equal}
use micro_coin.Models.{CreateOrderRequest, Symbol, is_btc_usd, Order, new, is_active, is_buy}
use micro_coin.Database.World.{Error, ok, err, Result-cases}
use micro_coin.Limitbook.Memory.{Memory}
use micro_coin.Limitbook.Book.{OrderBook, add_order}
use micro_coin.Limitbook.Side.{add_to_side, get_best_level}
use micro_coin.Limitbook.Match.{
  match_order, match_loop, Outcome, returned, opposite, with_opposite, start, set_status, Matching,
}
use micro_coin.Orders.Service.{validate_order_request, calculate_required_amount}
use micro_coin.Orders.Exchange.{Exchange, book_of, with_book, allocate}
use micro_coin.Orders.Create.{
  Ending, finished, crashed, Fills, settle_order, with_fills, find_fill_price, place,
  process_trades, save, finish, trade_out, create_order,
}
use micro_coin.Orders.Create.Stages.{place_ok}

-- No response, for an error or for a panic.
abbrev IsFailure : {A : Type 0} → Ending A → Type 0
IsFailure r = (r ≡ crashed) ⊎ ((e : Error) × (r ≡ finished (err e)))

module _ {D : Type 0} ⦃dec : Decimal D⦄ ⦃laws : IsDecimal D⦄ where
  add_order_unpriced :
      (m : Memory D) (b : OrderBook) (p : ℕ) → (m.order_at p).price ≡ none → add_order m b p ≡ none
  unfolding add_order add_to_side
  add_order_unpriced m b p h = ground arith

  match_loop_empty :
      (fuel p : ℕ) (s : Matching D) → s.side.heap ≡ [] → match_loop (suc fuel) p s ≡ (returned, s)
  unfolding match_loop get_best_level
  match_loop_empty fuel p s h = ground arith

  match_order_empty :
      (fuel : ℕ) (m : Memory D) (ob : OrderBook) (p : ℕ)
      → (opposite (m.order_at p) ob).heap ≡ []
      → match_order (suc fuel) m ob p ≡ (
        returned,
        set_status p (start m ob p),
        with_opposite (m.order_at p) (opposite (m.order_at p) ob) ob,
      )
  unfolding match_order
  match_order_empty fuel m ob p h = ground (arith, match_loop_empty fuel p (start m ob p) h)

  finish_unpriced :
      (o : Order D) (f : Fills D) (p : ℕ) (x : Exchange D)
      → is_active o.status ≡ true
      → (x.memory.order_at p).price ≡ none
      → IsFailure (finish o f p x).0
  unfolding finish
  finish_unpriced o f p x active unpriced = elim (Result-cases (save o x.world).0) [
    | inl (e, refused) ↦ inr (e, rw (finish, refused) refl)
    | inr (u, saved) ↦
        let crash = add_order_unpriced x.memory (book_of o.symbol x) p unpriced in
        inl (rw (finish, saved, active, crash) refl)
  ]

  -- With no trade, the status stays.
  unfilled :
      (o : Order D)
      → less_than_or_equal o.qty nought ≡ false
      → (with_fills o (record { qty = nought; value = nought })).status ≡ o.status
  unfilled o h = ground (
    arith,
    (laws.cmp-eq nought o.qty).0,
    (laws.cmp-eq nought nought).1,
    (laws.cmp-eq o.qty nought).1,
  )

  with_book_price :
      (s : Symbol) (b : OrderBook) (x : Exchange D) (p : ℕ)
      → (x.memory.order_at p).price ≡ none
      → ((with_book s b x).memory.order_at p).price ≡ none
  with_book_price s b x p h =
      if_split (λ (y : Exchange D). (y.memory.order_at p).price ≡ none) (is_btc_usd s) (λ _. h)
        (λ _. h)

  settle_order_unpriced :
      (o : Order D) (p : ℕ) (x : Exchange D)
      → o.status ≡ new
      → less_than_or_equal o.qty nought ≡ false
      → (x.memory.order_at p).price ≡ none
      → IsFailure (settle_order returned o p [] x).0
  unfolding settle_order process_trades
  settle_order_unpriced o p x fresh positive unpriced =
      let active : is_active (with_fills o (record { qty = nought; value = nought })).status
          ≡ true =
        rw (unfilled o positive, fresh) refl in
      finish_unpriced (with_fills o (record { qty = nought; value = nought }))
        (record { qty = nought; value = nought }) p x active unpriced

  trade_out_unmatched :
      (fuel : ℕ) (o : Order D) (x : Exchange D)
      → o.price ≡ none
      → o.status ≡ new
      → less_than_or_equal o.qty nought ≡ false
      → (opposite o (book_of o.symbol x)).heap ≡ []
      → IsFailure (trade_out (suc fuel) o x).0
  unfolding trade_out
  trade_out_unmatched fuel o x unpriced fresh positive alone =
      let (p, m) = allocate o x.memory in
      let b = book_of o.symbol x in
      let s : Matching D = set_status p (start m b p) in
      let b' = with_opposite (m.order_at p) (opposite (m.order_at p) b) b in
      let here = ==_refl p in
      let e : match_order (suc fuel) m b p ≡ (returned, s, b') =
        match_order_empty fuel m b p (rw here alone) in
      let x' = with_book o.symbol b' (record x { memory = s.memory }) in
      let unpriced' : (s.memory.order_at p).price ≡ none = rw here unpriced in
      let run =
        settle_order_unpriced o p x' fresh positive (with_book_price o.symbol b' _ p unpriced') in
      subst
        (λ (z : Outcome × Matching D × OrderBook).
          IsFailure
            (settle_order z.0 o p z.1.trades
              (with_book o.symbol z.2 (record x { memory = z.1.memory }))).0)
        (sym e) run

  positive_qty :
      (req : CreateOrderRequest D) (u : Unit {0})
      → validate_order_request req ≡ ok u
      → less_than_or_equal req.qty nought ≡ false
  unfolding validate_order_request
  positive_qty req u h = ground arith

  -- A market order without a price that finds the other side of its book empty gets no answer but a
  -- failure: an error, or the panic of `AddOrder`, which takes the order's price.
  pub create_order_unmatched :
      (fuel user : ℕ) (req : CreateOrderRequest D) (x : Exchange D)
      → req.price ≡ none
      → (if is_buy req.side then (book_of req.symbol x).asks else (book_of req.symbol x).bids).heap
        ≡ []
      → IsFailure (create_order (suc fuel) user req x).0
  unfolding create_order
  create_order_unmatched fuel user req x unpriced alone =
      elim (Result-cases (validate_order_request req)) [
        | inl (e, h) ↦ inr (e, rw (create_order, h) refl)
        | inr (u, h) ↦ elim (Result-cases (find_fill_price req x)) [
          | inl (e, h') ↦ inr (e, rw (create_order, h, h') refl)
          | inr (price, h') ↦ elim (Option-cases (calculate_required_amount req price)) [
            | inl h'' ↦ inl (rw (create_order, h, h', h'') refl)
            | inr (err e, h'') ↦ inr (e, rw (create_order, h, h', h'') refl)
            | inr (ok amount, h'') ↦ elim (Result-cases (place user req amount x.world).0) [
              | inl (e, k) ↦ inr (e, rw (create_order, h, h', h'', k) refl)
              | inr (o, k) ↦
                  let (id, now, same) = place_ok user req amount x.world o k in
                  rw (create_order, h, h', h'', k)
                    (trade_out_unmatched fuel o
                      (record x { world = (place user req amount x.world).1 }) (rw same unpriced)
                      (rw same refl) (rw same (positive_qty req u h)) (rw same alone))
            ]
          ]
        ]
      ]
