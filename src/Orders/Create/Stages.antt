-- ===== src/Orders/Create/Stages.antt =====
-- What the stages of `CreateOrder` behind the hold keep, for any property of the accounts and the
-- ledger entries that the payment of a trade keeps.
use micro_coin.Base.{ℕ, ◌≡◌, refl, subst, List, [], ◌∷◌, arith, All, if_split}
use micro_coin.Decimal.{Decimal, nought}
use micro_coin.Models.{CreateOrderRequest, Order, Trade, Symbol, is_btc_usd}
use micro_coin.Database.Tables.{Tables}
use micro_coin.Database.World.{World, ok}
use micro_coin.Database.Orders.{create_order as insert_order_row, update_order}
use micro_coin.Limitbook.Book.{OrderBook}
use micro_coin.Limitbook.Match.{match_order, Outcome, returned, panicked, out_of_fuel}
use micro_coin.Orders.Service.{hold_funds, process_trade}
use micro_coin.Orders.Exchange.{Exchange, book_of, with_book, allocate}
use micro_coin.Orders.Create.{
  Fills, settle_order, with_fills, order_for, place, insert_new, process_trades, save, finish,
  trade_out,
}

module _ {D : Type 0} ⦃dec : Decimal D⦄ where
  pub insert_keeps :
      (user : ℕ) (req : CreateOrderRequest D) (w : World D)
      → ((insert_new user req w).1.tables.accounts ≡ w.tables.accounts)
        × ((insert_new user req w).1.tables.ledger_entries ≡ w.tables.ledger_entries)
  unfolding insert_new insert_order_row
  insert_keeps user req w = (ground arith, ground arith)

  save_keeps :
      (o : Order D) (w : World D)
      → ((save o w).1.tables.accounts ≡ w.tables.accounts)
        × ((save o w).1.tables.ledger_entries ≡ w.tables.ledger_entries)
  unfolding save update_order
  save_keeps o w = (ground arith, ground arith)

  inserted :
      (user : ℕ) (req : CreateOrderRequest D) (w : World D) (o : Order D)
      → (insert_new user req w).0 ≡ ok o
      → o ≡ order_for user req (w.fresh w.ids) (w.clock w.calls)
  unfolding insert_new insert_order_row
  inserted user req w o h = ground arith

  pub place_ok :
      (user : ℕ) (req : CreateOrderRequest D) (amount : D) (w : World D) (o : Order D)
      → (place user req amount w).0 ≡ ok o
      → (id : ℕ) × (now : ℕ) × (o ≡ order_for user req id now)
  unfolding place
  place_ok user req amount w o h =
      let w' = (hold_funds user req amount w).1 in
      (w'.fresh w'.ids, w'.clock w'.calls, ground (arith, inserted user req w' o))

  finish_tables :
      (order : Order D) (f : Fills D) (p : ℕ) (x : Exchange D)
      → (save order x.world).1.tables ≡ (finish order f p x).1.world.tables
  unfolding finish
  finish_tables order f p x = ground arith

  -- The trades that a new order would make.
  abbrev pub trades_of : ℕ → Exchange D → Order D → List (Trade D)
  trades_of fuel x o =
      let (p, m) = allocate o x.memory in (match_order fuel m (book_of o.symbol x) p).1.trades

  with_book_world :
      (s : Symbol) (b : OrderBook) (x : Exchange D) → x.world ≡ (with_book s b x).world
  with_book_world s b x =
      if_split (λ (y : Exchange D). x.world ≡ y.world) (is_btc_usd s) (λ _. refl) (λ _. refl)

module _ {D : Type 0} ⦃dec : Decimal D⦄ (P : Tables D → Type 0)
    (along : (t t' : Tables D)
      → t'.accounts ≡ t.accounts
      → t'.ledger_entries ≡ t.ledger_entries
      → P t
      → P t')
    (IsPayable : Trade D → Type 0)
    (pays : (t : Trade D) (w : World D)
      → IsPayable t
      → P w.tables
      → P (process_trade t w).1.tables) where
  process_trades-keeps :
      (ts : List (Trade D)) (f : Fills D) (w : World D)
      → All IsPayable ts
      → P w.tables
      → P (process_trades ts f w).1.tables
  unfolding process_trades
  process_trades-keeps [] f w p v = v
  process_trades-keeps (t ∷ ts) f w (q, p) v =
      process_trades-keeps ts _ (process_trade t w).1 p (pays t w q v)

  finish-keeps :
      (order : Order D) (f : Fills D) (p : ℕ) (x : Exchange D)
      → P x.world.tables
      → P (finish order f p x).1.world.tables
  unfolding finish
  finish-keeps order f p x v =
      let (same, same') = save_keeps order x.world in
      let v' : P (save order x.world).1.tables =
        along x.world.tables (save order x.world).1.tables same same' v in
      subst P (finish_tables order f p x) v'

  settle_order-keeps :
      (r : Outcome) (o : Order D) (p : ℕ) (ts : List (Trade D)) (x : Exchange D)
      → All IsPayable ts
      → P x.world.tables
      → P (settle_order r o p ts x).1.world.tables
  unfolding settle_order
  settle_order-keeps returned o p ts x q v =
      let none_yet : Fills D = record { qty = nought; value = nought } in
      let (f, w) = process_trades ts none_yet x.world in
      finish-keeps (with_fills o f) f p (record x { world = w })
        (process_trades-keeps ts none_yet x.world q v)
  settle_order-keeps panicked o p ts x q v = v
  settle_order-keeps out_of_fuel o p ts x q v = v

  pub trade_out-keeps :
      (fuel : ℕ) (o : Order D) (x : Exchange D)
      → All IsPayable (trades_of fuel x o)
      → P x.world.tables
      → P (trade_out fuel o x).1.world.tables
  unfolding trade_out
  trade_out-keeps fuel o x q v =
      let (p, m) = allocate o x.memory in
      let (r, s, b) = match_order fuel m (book_of o.symbol x) p in
      let x' = record x { memory = s.memory } in
      settle_order-keeps r o p s.trades (with_book o.symbol b x') q
        (subst (λ (w : World D). P w.tables) (with_book_world o.symbol b x') v)
