-- ===== src/Server/Socket.antt =====
-- cmd/monolith/main.go: `websocketQuotesHandler`. The package websocket is not part of the repository:
-- whether a connection is upgraded and whether `conn.WriteJSON` succeeds are parameters. Between two
-- rounds of the loop other goroutines call the quote service.
pub mod Closing
use micro_coin.Base.{ℕ, Bool, true, false, List, [], ◌∷◌, ◌++◌, Option, some, none, if◌then◌else◌}
use micro_coin.Models.{btc_usd, eth_usd, Quote}
use micro_coin.Quotes.{Channel, QuoteService, set_channel, subscribe, unsubscribe}
use micro_coin.Quotes.Calls.{Call, perform}

pub data Event (D : Type 0) : Type 0 where
  -- a call of another goroutine
  other : Call D → Event D
  -- a round of `select`: whether it looks at the BTC channel, and whether the quote is written
  chosen : Bool → Bool → Event D

-- How far a connection has come, with what was written to it: quotes, and `none` for a nil.
pub data Session (D : Type 0) : Type 0 where
  not_upgraded : QuoteService D → Session D
  serving : List (Option (Quote D)) → QuoteService D → Session D
  hung_up : List (Option (Quote D)) → QuoteService D → Session D
  crashed : Session D

module _ {D : Type 0} where
  -- `quote := <-ch`, if it is ready: a waiting quote, or nil from a closed channel without one. `none`
  -- is an open channel without one.
  abbrev pub receive : ℕ → QuoteService D → Option (Option (Quote D) × QuoteService D)
  receive ch s = elim (s.channel_at ch).waiting [
    | [] ↦ if (s.channel_at ch).closed then some (none, s) else none
    | q ∷ qs ↦ some (some q, set_channel ch (record (s.channel_at ch) { waiting = qs }) s)
  ]

  -- The deferred calls, the last one first.
  abbrev pub hang_up : ℕ → ℕ → QuoteService D → Option (QuoteService D)
  hang_up btc_ch eth_ch s = elim (unsubscribe eth_usd eth_ch s) [
    | none ↦ none
    | some s' ↦ unsubscribe btc_usd btc_ch s'
  ]

  -- While the chosen channel is not ready, `select` waits on.
  unfoldable pub select_loop :
      List (Event D) → ℕ → ℕ → List (Option (Quote D)) → QuoteService D → Session D
  select_loop [] btc_ch eth_ch sent s = serving sent s
  select_loop (other c ∷ es) btc_ch eth_ch sent s = elim (perform c s) [
    | none ↦ crashed
    | some s' ↦ select_loop es btc_ch eth_ch sent s'
  ]
  select_loop (chosen on_btc written ∷ es) btc_ch eth_ch sent s =
      elim (receive (if on_btc then btc_ch else eth_ch) s) [
        | none ↦ select_loop es btc_ch eth_ch sent s
        | some (q, s') ↦ elim written [
          | true ↦ select_loop es btc_ch eth_ch (sent ++ q ∷ []) s'
          | false ↦ elim (hang_up btc_ch eth_ch s') [ none ↦ crashed | some s'' ↦ hung_up sent s'' ]
        ]
      ]

  unfoldable pub websocket_quotes_handler : Bool → List (Event D) → QuoteService D → Session D
  websocket_quotes_handler upgraded events s =
      let (btc_ch, s') = subscribe btc_usd s in
      let (eth_ch, s'') = subscribe eth_usd s' in
      if upgraded then select_loop events btc_ch eth_ch [] s'' else not_upgraded s
