-- ===== src/Database/Orders.antt =====
-- internal/database/order.go: `OrderRepository`. A query that fails while its rows are read fails
-- as a whole here.
use micro_coin.Base.{
  ltb, ◌&&◌, take, drop, ℕ, suc, ◌≡◌, List, [], ◌∷◌, some, Bool, false, arith, ◌==◌, find_first,
}
use micro_coin.Decimal.{Decimal}
use micro_coin.Models.{Order, OrderStatus, Symbol, same_symbol, is_active}
use micro_coin.Database.Tables.{set_order, insert_order, has_order_id}
use micro_coin.Database.Tables.{update_order as update_order_row}
use micro_coin.Database.Queries.{order_by, rows_where}
use micro_coin.Database.World.{
  World, Action, Tx, ok, message, ◌>>=◌, ◌>>◌, wrapped, or_fail, call_driver, gets, exec, exec_now,
  commit,
}

module _ {D : Type 0} where
  abbrev pub newer : Order D → Order D → Bool
  newer a b = ltb b.created_at a.created_at

  abbrev pub older : Order D → Order D → Bool
  older a b = ltb a.created_at b.created_at

  unfoldable pub get_order_by_id : ℕ → Action D (Order D)
  get_order_by_id id = do
    wrapped "failed to get order" call_driver
    found ← gets (λ w. find_first (has_order_id id) w.tables.orders)
    or_fail found (message "order not found")

  -- ORDER BY created_at DESC LIMIT $2 OFFSET $3
  unfoldable pub get_orders_by_user_id : ℕ → ℕ → ℕ → Action D (List (Order D))
  get_orders_by_user_id user_id limit offset = do
    wrapped "failed to get orders" call_driver
    gets (λ w.
        take limit
          (drop offset (order_by newer (rows_where (λ o. o.user_id == user_id) w.tables.orders))))

  -- status IN ('NEW', 'PARTIALLY_FILLED') ORDER BY created_at ASC
  unfoldable pub get_active_orders_by_symbol : Symbol → Action D (List (Order D))
  get_active_orders_by_symbol symbol = do
    wrapped "failed to get active orders" call_driver
    gets (λ w.
        order_by older
          (rows_where (λ o. same_symbol o.symbol symbol && is_active o.status) w.tables.orders))

module _ {D : Type 0} ⦃dec : Decimal D⦄ where
  unfoldable pub create_order : Order D → Action D (Unit {0})
  create_order order = wrapped "failed to create order" (exec_now (insert_order order))

  unfoldable pub update_order : Tx D → Order D → Action D (Tx D)
  update_order tx order =
      wrapped "failed to update order"
        (exec tx (update_order_row order.id order.filled_qty order.status))

  found-set_order :
      (id : ℕ) (q : D) (status : OrderStatus) {o : Order D} (os : List (Order D))
      → find_first (has_order_id id) os ≡ some o
      → find_first (has_order_id id) (set_order id q status os)
        ≡ some (record o { filled_qty = dec.numeric q; status = status })
  found-set_order id q status [] h = cc
  found-set_order id q status {o} (p ∷ os) h =
      ground (arith, found-set_order id q status {o = o} os)

  -- After the update of an order that is in the table has been committed, alone in its transaction, a
  -- reading of it to which the server answers returns the order with the new status and the new
  -- filled quantity, rounded to its column, and the old values in the other fields.
  pub get_order_by_id-update_order :
      (tx tx' : Tx D) (order o : Order D) (w w' : World D)
      → tx.statements ≡ []
      → find_first (has_order_id order.id) w'.tables.orders ≡ some o
      → (update_order tx order w).0 ≡ ok tx'
      → (commit tx' w').0 ≡ ok tt
      → w'.fails (suc w'.calls) ≡ false
      → (get_order_by_id order.id (commit tx' w').1).0
        ≡ ok (record o { filled_qty = dec.numeric order.filled_qty; status = order.status })
  unfolding update_order get_order_by_id
  get_order_by_id-update_order tx tx' order o w w' new there updated done answers =
      ground (
        arith,
        found-set_order order.id order.filled_qty order.status {o = o} w'.tables.orders there,
      )
