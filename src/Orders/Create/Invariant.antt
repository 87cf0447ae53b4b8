-- ===== src/Orders/Create/Invariant.antt =====
-- `CreateOrder` and the invariant of the ledger.
use micro_coin.Base.{ℕ, ◌≡◌, ◌≢◌, Option, some, Option-cases, inl, inr, All, if_split}
use micro_coin.Decimal.{Decimal, IsDecimal, IsStorable, ◌⊗◌}
use micro_coin.Models.{CreateOrderRequest, Trade, usd, btc, eth, is_buy, is_btc_usd, is_eth_usd}
use micro_coin.Database.Tables.{Tables}
use micro_coin.Database.World.{World, Action, ok, err, Result-cases}
use micro_coin.Ledger.Spec.Invariant.{IsValid}
use micro_coin.Ledger.Session.{perform, perform-IsValid, hold}
use micro_coin.Orders.Service.{validate_order_request, calculate_required_amount, hold_funds}
use micro_coin.Orders.Service.Payment.{after, process_trade-IsValid}
use micro_coin.Orders.Exchange.{Exchange}
use micro_coin.Orders.Create.Stages.{insert_keeps, place_ok, trades_of, trade_out-keeps}
use micro_coin.Orders.Create.{find_fill_price, order_for, place, insert_new, create_order}

module _ {D : Type 0} ⦃dec : Decimal D⦄ ⦃laws : IsDecimal D⦄ where
  -- The invariant speaks of accounts and ledger entries only.
  pub IsValid-along :
      (t t' : Tables D)
      → t'.accounts ≡ t.accounts
      → t'.ledger_entries ≡ t.ledger_entries
      → IsValid t
      → IsValid t'
  IsValid-along t t' e f v = record {
    keyed = rw e v.keyed;
    sound = rw e v.sound;
    balanced = rw f v.balanced;
    reconciled = rw (e, f) v.reconciled;
  }

  hold_funds-IsValid :
      (user : ℕ) (req : CreateOrderRequest D) (amount : D) (w : World D)
      → IsStorable amount
      → IsValid w.tables
      → IsValid (hold_funds user req amount w).1.tables
  unfolding hold_funds perform
  hold_funds-IsValid user req amount w st v =
      if_split (λ (m : Action D (Unit {0})). IsValid (m w).1.tables) (is_buy req.side)
        (λ _. perform-IsValid (hold user usd amount) w st v)
        (λ _.
          if_split (λ (m : Action D (Unit {0})). IsValid (m w).1.tables) (is_btc_usd req.symbol)
            (λ _. perform-IsValid (hold user btc amount) w st v)
            (λ _.
              if_split (λ (m : Action D (Unit {0})). IsValid (m w).1.tables) (is_eth_usd req.symbol)
                (λ _. perform-IsValid (hold user eth amount) w st v) (λ _. v)))

  place-IsValid :
      (user : ℕ) (req : CreateOrderRequest D) (amount : D) (w : World D)
      → IsStorable amount
      → IsValid w.tables
      → IsValid (place user req amount w).1.tables
  unfolding place
  place-IsValid user req amount w st v =
      let v' = hold_funds-IsValid user req amount w st v in
      let w' = (hold_funds user req amount w).1 in
      let (same, same') = insert_keeps user req w' in
      after (hold_funds user req amount) (λ _. insert_new user req) w v'
        λ a e. IsValid-along w'.tables (insert_new user req w').1.tables same same' v'

  -- A trade between two users, for amounts that fit their columns.
  abbrev pub IsPayable : Trade D → Type 0
  IsPayable t = (t.taker_id ≢ t.maker_id) × IsStorable t.qty × IsStorable (t.price ⊗ t.qty)

  pub create_order-IsValid :
      (fuel user : ℕ) (req : CreateOrderRequest D) (x : Exchange D)
      → ((price : Option D) (amount : D)
          → find_fill_price req x ≡ ok price
          → calculate_required_amount req price ≡ some (ok amount)
          → IsStorable amount)
      → ((id now : ℕ) → All IsPayable (trades_of fuel x (order_for user req id now)))
      → IsValid x.world.tables
      → IsValid (create_order fuel user req x).1.world.tables
  unfolding create_order
  create_order-IsValid fuel user req x fits pays v =
      elim (Result-cases (validate_order_request req)) [
        | inl (e, h) ↦ rw (create_order, h) v
        | inr (u, h) ↦ elim (Result-cases (find_fill_price req x)) [
          | inl (e, h') ↦ rw (create_order, h, h') v
          | inr (price, h') ↦ elim (Option-cases (calculate_required_amount req price)) [
            | inl h'' ↦ rw (create_order, h, h', h'') v
            | inr (err e, h'') ↦ rw (create_order, h, h', h'') v
            | inr (ok amount, h'') ↦
                let v' = place-IsValid user req amount x.world (fits price amount h' h'') v in
                elim (Result-cases (place user req amount x.world).0) [
                  | inl (e, k) ↦ rw (create_order, h, h', h'', k) v'
                  | inr (o, k) ↦
                      let (id, now, same) = place_ok user req amount x.world o k in
                      rw (create_order, h, h', h'', k)
                        (trade_out-keeps IsValid IsValid-along IsPayable
                          (λ t w (n, st, st') v. process_trade-IsValid t w n st st' v) fuel o
                          (record x { world = (place user req amount x.world).1 })
                          (rw same (pays id now)) v')
                ]
          ]
        ]
      ]
