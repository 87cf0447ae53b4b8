-- ===== src/Quotes/Feed.antt =====
-- internal/quotes/quotes.go: the two goroutines of `Start`, round by round. Redis passes messages on by
-- channel names; JSON is a parameter.
use Prim.Native.String.{◌++◌ as concat}
use micro_coin.Base.{ℕ, ◌%◌, List, [], ◌∷◌, String, Option, none, some, if◌then◌else◌}
use micro_coin.Base.Int.{ℤ, pos, ◌-ℤ◌}
use micro_coin.Decimal.{Decimal, nought, ◌⊕◌, ◌⊖◌, ◌⊗◌, less_than}
use micro_coin.Models.{Symbol, Quote, btc_usd, eth_usd, text_of}
use micro_coin.Quotes.{QuoteService, update_quote}

module _ {D : Type 0} where
  -- The payloads that arrive before the context is done. `none` is a panic of `updateQuote`.
  unfoldable pub subscribe_to_quotes :
      (String → Option (Quote D)) → List String → QuoteService D → Option (QuoteService D)
  subscribe_to_quotes unmarshal [] s = some s
  subscribe_to_quotes unmarshal (payload ∷ payloads) s = elim (unmarshal payload) [
    | none ↦ subscribe_to_quotes unmarshal payloads s
    | some quote ↦ elim (update_quote quote s) [
      | none ↦ none
      | some s' ↦ subscribe_to_quotes unmarshal payloads s'
    ]
  ]

  -- What is sent to Redis: the channel and the payload, or nothing.
  unfoldable pub publish_quote : (Quote D → Option String) → Quote D → List (String × String)
  publish_quote marshal quote = elim (marshal quote) [
    | none ↦ []
    | some data_ ↦ (concat "quotes:" (text_of quote.symbol), data_) ∷ []
  ]

-- `btcPrice` and `ethPrice`
pub record Prices (D : Type 0) : Type 0 where
  pub btc : D
  pub eth : D

-- `whole n` is `decimal.NewFromFloat` of a whole number, `step` of 0.001 and `spread` of 0.0001.
module _ {D : Type 0} ⦃dec : Decimal D⦄ (whole : ℤ → D) (step spread : D) where
  abbrev pub initial_prices : Prices D
  initial_prices = record { btc = whole (pos 60000); eth = whole (pos 3000) }

  -- A price after a change, by the nanoseconds of the clock, or the price of the start.
  unfoldable pub next_price : D → D → ℕ → D
  next_price initial price nanos =
      let changed = price ⊕ step ⊗ whole (pos (nanos % 100) -ℤ pos 50) in
      if less_than changed nought then initial else changed

  abbrev pub quote_of : Symbol → D → ℕ → Quote D
  quote_of symbol price now = record {
    symbol = symbol;
    bid = price ⊖ price ⊗ spread;
    ask = price ⊕ price ⊗ spread;
    ts = now;
  }

  -- One tick: the readings of the clock are the nanoseconds of the two changes and the times of the
  -- two quotes.
  unfoldable pub generate_mock_quotes : ℕ → ℕ → ℕ → ℕ → Prices D → Prices D × Quote D × Quote D
  unfolding next_price
  generate_mock_quotes btc_nanos eth_nanos btc_now eth_now prices =
      let btc = next_price initial_prices.btc prices.btc btc_nanos in
      let eth = next_price initial_prices.eth prices.eth eth_nanos in
      (record { btc = btc; eth = eth }, quote_of btc_usd btc btc_now, quote_of eth_usd eth eth_now)
