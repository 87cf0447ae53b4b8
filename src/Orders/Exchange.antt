-- ===== src/Orders/Exchange.antt =====
-- internal/orders/service.go: what `Service` holds, and the loading of the books at the start.
pub mod Loading
use micro_coin.Base.{ℕ, suc, List, [], ◌∷◌, Option, some, none, if◌then◌else◌}
use micro_coin.Decimal.{Decimal}
use micro_coin.Models.{Symbol, btc_usd, eth_usd, is_btc_usd, Order}
use micro_coin.Database.World.{World, ok, err, Action}
use micro_coin.Database.Orders.{
  get_order_by_id, get_orders_by_user_id as rows_by_user_id, get_active_orders_by_symbol,
}
use micro_coin.Limitbook.Memory.{Memory, write_order}
use micro_coin.Limitbook.Book.{OrderBook, new_order_book, add_order}
use micro_coin.Quotes.{QuoteService}
use micro_coin.Orders.Service.{convert_to_book_order}

-- The database with its server, the objects of the books, and the map `orderBooks`, which has a book
-- for each of the two declared symbols and no other.
pub record Exchange (D : Type 0) : Type 0 where
  pub world : World D
  pub memory : Memory D
  pub btc_book : OrderBook
  pub eth_book : OrderBook
  pub quotes : QuoteService D

module _ {D : Type 0} where
  abbrev pub book_of : Symbol → Exchange D → OrderBook
  book_of s x = if is_btc_usd s then x.btc_book else x.eth_book

  abbrev pub with_book : Symbol → OrderBook → Exchange D → Exchange D
  with_book s b x = if is_btc_usd s then record x { btc_book = b } else record x { eth_book = b }

  -- `convertToBookOrder` makes a new object.
  abbrev pub allocate : Order D → Memory D → ℕ × Memory D
  allocate o m =
      let p = m.next_order in
      (p, write_order p (convert_to_book_order o) (record m { next_order = suc p }))

  unfoldable pub get_order : ℕ → Action D (Order D)
  get_order = get_order_by_id

  unfoldable pub get_orders_by_user_id : ℕ → ℕ → ℕ → Action D (List (Order D))
  get_orders_by_user_id = rows_by_user_id

module _ {D : Type 0} ⦃dec : Decimal D⦄ where
  -- `for _, order := range orders`; `none` is a panic of `AddOrder`.
  unfoldable pub load_orders : List (Order D) → Memory D → OrderBook → Option (Memory D × OrderBook)
  load_orders [] m b = some (m, b)
  load_orders (o ∷ os) m b =
      let (p, m') = allocate o m in
      elim (add_order m' b p) [ none ↦ none | some (m'', b') ↦ load_orders os m'' b' ]

  -- One symbol. Orders that cannot be read leave the book as it is.
  unfoldable pub load_book : Symbol → Exchange D → Option (Exchange D)
  unfolding load_orders
  load_book symbol x =
      let (result, w) = get_active_orders_by_symbol symbol x.world in
      elim result [
        | err e ↦ some (record x { world = w })
        | ok orders ↦ elim (load_orders orders x.memory (book_of symbol x)) [
          | none ↦ none
          | some (m, b) ↦ some (with_book symbol b (record x { world = w; memory = m }))
        ]
      ]

  -- Go visits the two symbols in either order, here BTC-USD comes first.
  unfoldable pub load_orders_into_books : Exchange D → Option (Exchange D)
  unfolding load_book
  load_orders_into_books x = elim (load_book btc_usd x) [
    | none ↦ none
    | some x' ↦ load_book eth_usd x'
  ]

  unfoldable pub new_service : World D → Memory D → QuoteService D → Option (Exchange D)
  unfolding load_orders_into_books
  new_service w m quotes = load_orders_into_books (record {
    world = w;
    memory = m;
    btc_book = new_order_book btc_usd;
    eth_book = new_order_book eth_usd;
    quotes = quotes;
  })
