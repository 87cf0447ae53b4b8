-- ===== src/Limitbook/Memory.antt =====
-- The objects that the order book shares by pointer: orders and price levels (orderbook.go). A
-- pointer is a number; no pointer dangles, so reading is total.
use micro_coin.Base.{ℕ, List, ◌==◌, if◌then◌else◌}
use micro_coin.Models.{Order}

pub record PriceLevel (D : Type 0) : Type 0 where
  pub price : D
  pub orders : List ℕ

-- `fresh` and `clock` are the sources of `uuid.New()` and `time.Now()`, read at `ticks`.
pub record Memory (D : Type 0) : Type 0 where
  pub order_at : ℕ → Order D
  pub level_at : ℕ → PriceLevel D
  pub next_order : ℕ
  pub next_level : ℕ
  pub fresh : ℕ → ℕ
  pub clock : ℕ → ℕ
  pub ticks : ℕ

abbrev pub update {ℓ} : {A : Type ℓ} → (ℕ → A) → ℕ → A → ℕ → A
update f p v q = if p == q then v else f q

module _ {D : Type 0} where
  abbrev pub write_order : ℕ → Order D → Memory D → Memory D
  write_order r o m = record m { order_at = update m.order_at r o }

  abbrev pub write_level : ℕ → PriceLevel D → Memory D → Memory D
  write_level l v m = record m { level_at = update m.level_at l v }

  -- `level.Orders = orders`
  abbrev pub write_orders : ℕ → List ℕ → Memory D → Memory D
  write_orders l rs m = write_level l (record (m.level_at l) { orders = rs }) m
