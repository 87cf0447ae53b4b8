-- ===== src/Orders/Service/Request.antt =====
-- What the checks of an order request ensure.
use micro_coin.Base.{
  ◌≡◌, Option, none, some, arith, String, Option-cases, inl, inr, if◌then◌else◌, if_split,
}
use micro_coin.Decimal.{Decimal, IsDecimal, nought, ◌≺◌, ◌⊗◌}
use micro_coin.Models.{CreateOrderRequest, is_buy, limit, other_type, btc_usd}
use micro_coin.Database.World.{ok}
use micro_coin.Orders.Service.{validate_order_request, calculate_required_amount}

module _ {D : Type 0} ⦃dec : Decimal D⦄ ⦃laws : IsDecimal D⦄ where
  -- A limit order that passes the checks needs a positive amount of funds, whatever the fill price,
  -- and finding it does not panic.
  pub calculate_required_amount_pos :
      (req : CreateOrderRequest D) (fill_price : Option D)
      → req.order_type ≡ limit
      → validate_order_request req ≡ ok tt
      → (x : D) × (calculate_required_amount req fill_price ≡ some (ok x)) × (nought ≺ x)
  unfolding validate_order_request calculate_required_amount
  calculate_required_amount_pos req fill_price is_lim valid = elim (Option-cases req.price) [
    | inl missing ↦ absurd (ground arith)
    | inr (p, given) ↦
        let pos_price : nought ≺ p = ground (arith, (laws.cmp_swap p nought).0) in
        let pos_qty : nought ≺ req.qty = ground (arith, (laws.cmp_swap req.qty nought).0) in
        let pos_value = laws.mul_pos p req.qty pos_price pos_qty in
        (
          if is_buy req.side then p ⊗ req.qty else req.qty,
          ground arith,
          if_split (λ (x : D). nought ≺ x) (is_buy req.side) (λ _. pos_value) (λ _. pos_qty),
        )
  ]

  -- A request for BTC-USD of a type that is neither market nor limit, of a positive quantity and with
  -- no price passes the checks, and finding the funds it needs panics.
  pub calculate_required_amount_panics :
      (req : CreateOrderRequest D) (kind : String) (fill_price : Option D)
      → req.order_type ≡ other_type kind
      → req.price ≡ none
      → nought ≺ req.qty
      → req.symbol ≡ btc_usd
      → (validate_order_request req ≡ ok tt) × (calculate_required_amount req fill_price ≡ none)
  unfolding validate_order_request calculate_required_amount
  calculate_required_amount_panics req kind fill_price other missing pos symbol =
      ground (arith, (laws.cmp_swap req.qty nought).1)
