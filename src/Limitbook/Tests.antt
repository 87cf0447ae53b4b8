-- ===== src/Limitbook/Tests.antt =====
-- The matcher's theorems at a small book: two resting sell orders at one price, and buyers.
use micro_coin.Base.{
  ℕ, ◌<◌, ◌≡◌, ◌≢◌, refl, [], ◌∷◌, some, true, ◌==◌, leb, if◌then◌else◌, if_split, All, arith,
}
use micro_coin.Base.Int.{ℤ, pos, ◌+ℤ◌, ◌-ℤ◌}
use micro_coin.Decimal.Instance.{int_decimal, int_IsDecimal}
use micro_coin.Models.{Order, buy, sell, limit, new, btc_usd}
use micro_coin.Limitbook.Memory.{Memory, PriceLevel, write_level, write_order, write_orders}
use micro_coin.Decimal.{◌≼◌, ◌⊖◌}
use micro_coin.Limitbook.PriceHeap.Order.{price_at}
use micro_coin.Limitbook.PriceHeap.Push.{Covers}
use micro_coin.Limitbook.Side.Ordered.{IsOrdered, get_best_price-add_to_side}
use micro_coin.Limitbook.Side.{
  BookSide, get_best_price, new_book_side, get_best_level, remove_in, add_to_side, level_for,
}
use micro_coin.Limitbook.PriceHeap.{push, up_loop, less}
use micro_coin.Limitbook.Book.{OrderBook}
use micro_coin.Limitbook.Match.{match_order, returned, panicked, out_of_fuel, trade_of}
use micro_coin.Limitbook.Match.Invariant.{IsWithin}
use micro_coin.Limitbook.Match.Safety.{IsMatched, match_order-IsMatched}
use micro_coin.Limitbook.Match.Skips.{match_order-skips, fills}
use micro_coin.Limitbook.Match.Runs.{match_order-hangs, match_order-panics, match_order-first_fill}

abbrev qty_at : ℕ → ℕ
qty_at r = if r == 1 then 5 else if r == 2 then 4 else if r == 3 then 3 else 20

-- Orders 1 and 2 sell, the others buy.
abbrev order_at : ℕ → Order ℤ
order_at r = record {
  id = r;
  user_id = r;
  symbol = btc_usd;
  side = if leb r 2 then sell else buy;
  order_type = limit;
  price = some (pos 12);
  qty = pos (qty_at r);
  filled_qty = pos 0;
  status = new;
  created_at = r;
}

abbrev full_level : PriceLevel ℤ
full_level = record { price = pos 12; orders = 1 ∷ 2 ∷ [] }

abbrev empty_level : PriceLevel ℤ
empty_level = record { price = pos 12; orders = [] }

abbrev memory : Memory ℤ
memory = record {
  order_at = order_at;
  level_at = λ l. if l == 1 then full_level else empty_level;
  next_order = 9;
  next_level = 3;
  fresh = λ n. n;
  clock = λ n. n;
  ticks = 0;
}

-- A book whose only level of sell orders is the given one.
abbrev book_of : ℕ → OrderBook
book_of l = record {
  symbol = btc_usd;
  bids = new_book_side true;
  asks = record { levels = ("12", l) ∷ []; heap = l ∷ [] };
}

orders_apart : (j : ℕ) → All (λ r. r ≢ 3) (memory.level_at j).orders
orders_apart j =
    if_split (λ (v : PriceLevel ℤ). All (λ r. r ≢ 3) v.orders) (j == 1)
      (λ _. ((λ e. cc), ((λ e. cc), tt))) (λ _. tt)

memory-IsWithin : (r : ℕ) → IsWithin (memory.order_at r)
memory-IsWithin r = ground arith

match_order-IsMatched_example : IsMatched 3 memory (match_order 9 memory (book_of 1) 3).1
match_order-IsMatched_example =
    match_order-IsMatched 9 memory (book_of 1) 3 orders_apart memory-IsWithin

match_order-first_fill_example :
    ((match_order 2 memory (book_of 1) 3).0 ≡ returned)
    × ((match_order 2 memory (book_of 1) 3).1.trades ≡ trade_of memory 3 1 1 (pos 3) ∷ [])
unfolding get_best_level ◌-ℤ◌
match_order-first_fill_example =
    match_order-first_fill 0 memory (book_of 1) 3 1 1 (2 ∷ []) refl refl refl refl (λ e. cc)

match_order-panics_example : (match_order 1 memory (book_of 1) 4).0 ≡ panicked
unfolding get_best_level ◌-ℤ◌ ◌+ℤ◌
match_order-panics_example =
    match_order-panics 0 memory (book_of 1) 4 1 1 2 refl refl refl (λ e. cc) (λ e. cc) (λ e. cc)
      refl refl (λ e. cc)

-- The sell orders 0, 1 and 2 at one price, of 20, 5 and 4, and a buyer of 24.
abbrev three : Memory ℤ
three =
    write_order 4 (record (order_at 4) { qty = pos 24 })
      (record memory { level_at = λ l. record { price = pos 12; orders = 0 ∷ 1 ∷ 2 ∷ [] } })

match_order-skips_example :
    ((match_order 2 three (book_of 1) 4).0 ≡ returned)
    × (fills (match_order 2 three (book_of 1) 4).1.trades ≡ (0, pos 20) ∷ (2, pos 24 ⊖ pos 20) ∷ [])
unfolding get_best_level ◌-ℤ◌
match_order-skips_example =
    match_order-skips 0 three (book_of 1) 4 1 0 1 2 refl refl refl (λ e. cc) (λ e. cc) (λ e. cc)
      refl (λ e. cc) refl (λ e. cc)

match_order-hangs_example : (match_order 1000 memory (book_of 2) 3).0 ≡ out_of_fuel
unfolding get_best_level remove_in ◌-ℤ◌
match_order-hangs_example = match_order-hangs 1000 memory (book_of 2) 3 2 refl refl refl refl refl

-- Order 2 joins the asks at a new level, since the text of its price is not "12" here.
abbrev joined_memory : Memory ℤ
joined_memory =
    write_orders 3 (2 ∷ [])
      (write_level 3 (record { price = pos 12; orders = [] }) (record memory { next_level = 4 }))

abbrev joined_side : BookSide
joined_side = record { levels = (int_decimal.text (pos 12), 3) ∷ ("12", 1) ∷ []; heap = 1 ∷ 3 ∷ [] }

side-IsOrdered : IsOrdered memory (1 ∷ [])
side-IsOrdered = record { heap = λ c p q. absurd (omega arith); known = λ i p. ground arith }

get_best_price-add_to_side_example :
    IsOrdered joined_memory (1 ∷ 3 ∷ [])
    × Covers (1 ∷ []) (1 ∷ 3 ∷ [])
    × ((i : ℕ)
        → i < 2
        → (p : ℤ) × (get_best_price joined_memory joined_side ≡ some p)
          × (p ≼ price_at joined_memory (1 ∷ 3 ∷ []) i))
unfolding add_to_side level_for push up_loop less
get_best_price-add_to_side_example =
    get_best_price-add_to_side memory joined_memory (book_of 1).asks joined_side 2 refl
      side-IsOrdered
