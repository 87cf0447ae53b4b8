-- ===== src/Database/Tables.antt =====
-- The tables, and what each statement does to them.
use text.Mathlib.Text.{◌==◌ as str_eq}
use micro_coin.Base.{
  String, ℕ, suc, Bool, true, false, ◌&&◌, ◌||◌, List, [], ◌∷◌, ◌++◌, Option, none, some, ◌==◌,
  if◌then◌else◌, find_first,
}
use micro_coin.Decimal.{Decimal}
use micro_coin.Models.{
  IdempotencyKey, Account, LedgerEntry, Order, OrderStatus, Currency, same_currency, User, is_buy,
  is_sell, is_market, is_limit, is_btc_usd, is_eth_usd,
}

pub record Tables (D : Type 0) : Type 0 where
  pub users : List User
  pub accounts : List (Account D)
  pub ledger_entries : List (LedgerEntry D)
  pub orders : List (Order D)
  pub idempotency_keys : List IdempotencyKey
  -- the next value of the BIGSERIAL column `ledger_entries.id`
  pub next_entry : ℕ

-- The statements that write.
pub data Statement (D : Type 0) : Type 0 where
  -- INSERT INTO ledger_entries
  insert_entry : LedgerEntry D → Statement D
  -- UPDATE accounts SET balance_available = $1, balance_hold = $2 WHERE id = $3
  update_balance : ℕ → D → D → Statement D
  -- INSERT INTO orders
  insert_order : Order D → Statement D
  -- INSERT INTO idempotency_keys
  insert_key : IdempotencyKey → Statement D
  -- UPDATE orders SET filled_qty = $1, status = $2 WHERE id = $3
  update_order : ℕ → D → OrderStatus → Statement D

abbrev pub is_some {ℓ} : {A : Type ℓ} → Option A → Bool
is_some (some a) = true
is_some none = false

abbrev pub has_key : ℕ → String → IdempotencyKey → Bool
has_key user_id key k = k.user_id == user_id && str_eq k.idem_key key

abbrev pub has_user_id : ℕ → User → Bool
has_user_id id u = u.id == id

abbrev pub is_none {ℓ} : {A : Type ℓ} → Option A → Bool
is_none (some a) = false
is_none none = true

module _ {D : Type 0} where
  abbrev pub has_id : ℕ → Account D → Bool
  has_id id a = a.id == id

  abbrev pub belongs : ℕ → Currency → Account D → Bool
  belongs user currency a = a.user_id == user && same_currency a.currency currency

  -- SELECT ... FROM accounts WHERE id = $1
  abbrev pub account_by_id : ℕ → List (Account D) → Option (Account D)
  account_by_id id = find_first (has_id id)

  -- SELECT ... FROM accounts WHERE user_id = $1 AND currency = $2
  abbrev pub account_of : ℕ → Currency → List (Account D) → Option (Account D)
  account_of user currency = find_first (belongs user currency)

  -- The enumerated types of the columns `side` and `type`, and the check of `symbol`.
  abbrev pub well_typed : Order D → Bool
  well_typed o =
      (is_btc_usd o.symbol || is_eth_usd o.symbol)
      && (is_buy o.side || is_sell o.side)
      && (is_market o.order_type || is_limit o.order_type)

  abbrev pub has_order_id : ℕ → Order D → Bool
  has_order_id id o = o.id == id

  -- The constraints: `ledger_entries.account_id` references `accounts`, `orders.user_id` references
  -- `users`, an order's id is new, and a user has a key once.
  abbrev pub allowed : Tables D → Statement D → Bool
  allowed t (insert_entry e) = is_some (account_by_id e.account_id t.accounts)
  allowed t (update_balance id available hold) = true
  allowed t (insert_order o) =
      is_some (find_first (has_user_id o.user_id) t.users)
      && is_none (find_first (has_order_id o.id) t.orders)
      && well_typed o
  allowed t (insert_key k) = is_none (find_first (has_key k.user_id k.idem_key) t.idempotency_keys)
  allowed t (update_order id filled status) = true

module _ {D : Type 0} ⦃dec : Decimal D⦄ where
  -- A balance column keeps ten decimal places.
  abbrev pub with_balance : D → D → Account D → Account D
  with_balance available hold a = record a {
    balance_available = dec.numeric available;
    balance_hold = dec.numeric hold;
  }

  abbrev pub set_balance : ℕ → D → D → List (Account D) → List (Account D)
  set_balance id available hold [] = []
  set_balance id available hold (a ∷ as') =
      (if a.id == id then with_balance available hold a else a) ∷ set_balance id available hold as'

  abbrev pub stored_price : Option D → Option D
  stored_price none = none
  stored_price (some p) = some (dec.numeric p)

  abbrev pub set_order : ℕ → D → OrderStatus → List (Order D) → List (Order D)
  set_order id filled status [] = []
  set_order id filled status (o ∷ os) =
      (if o.id == id then record o { filled_qty = dec.numeric filled; status = status } else o)
      ∷ set_order id filled status os

  -- The database fills `id` and `created_at` of an entry.
  abbrev pub apply : ℕ → Tables D → Statement D → Tables D
  apply now t (insert_entry e) = record t {
    ledger_entries =
        t.ledger_entries
        ++ record e { id = t.next_entry; amount = dec.numeric e.amount; created_at = now } ∷ [];
    next_entry = suc t.next_entry;
  }
  apply now t (update_balance id available hold) = record t {
    accounts = set_balance id available hold t.accounts;
  }
  apply now t (insert_order o) = record t {
    orders =
        t.orders
        ++ record o {
          price = stored_price o.price;
          qty = dec.numeric o.qty;
          filled_qty = dec.numeric o.filled_qty;
        }
          ∷ [];
  }
  apply now t (insert_key k) = record t {
    idempotency_keys = t.idempotency_keys ++ record k { created_at = now } ∷ [];
  }
  apply now t (update_order id filled status) = record t {
    orders = set_order id filled status t.orders;
  }

  abbrev pub apply_all : ℕ → Tables D → List (Statement D) → Tables D
  apply_all now t [] = t
  apply_all now t (s ∷ ss) = apply_all now (apply now t s) ss
