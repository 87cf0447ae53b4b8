-- ===== src/Quotes/Tests.antt =====
-- The quote service at concrete calls.
use micro_coin.Base.{ℕ, ◌≡◌, ◌≢◌, refl, List, [], ◌∷◌, some, none, if◌then◌else◌}
use micro_coin.Base.Int.{ℤ, pos}
use micro_coin.Models.{Symbol, Quote, btc_usd, eth_usd}
use micro_coin.Database.World.{ok}
use micro_coin.Quotes.{
  QuoteService, new_quote_service, subscribe, unsubscribe, update_quote, get_quote, deliver,
  slice_at, is_subscriber,
}
use micro_coin.Quotes.Delivery.{received, update_quote_lem}
use micro_coin.Quotes.Calls.{
  Call, subscribing, unsubscribing, updating, perform_all, IsSound, subscribing-IsSound,
  new_quote_service-IsSound, perform_all-IsSound,
}
use micro_coin.Quotes.Overlap.{unsubscribe-during-deliver}

abbrev quote : Quote ℤ
quote = record { symbol = btc_usd; bid = pos 10; ask = pos 11; ts = 5 }

abbrev start : QuoteService ℤ
start = new_quote_service

-- Two subscribers of BTC-USD.
abbrev two : QuoteService ℤ
two = (subscribe btc_usd (subscribe btc_usd start).1).1

two-IsSound : IsSound two
two-IsSound =
    subscribing-IsSound btc_usd (subscribe btc_usd start).1
      (subscribing-IsSound btc_usd start new_quote_service-IsSound)

update_quote_lem_example :
    (s' : QuoteService ℤ) × (update_quote quote two ≡ some s')
    × (get_quote btc_usd s' ≡ ok quote)
    × ((t : Symbol) → btc_usd ≢ t → get_quote t s' ≡ get_quote t two)
    × (s'.subscribers ≡ two.subscribers)
    × (s'.next_channel ≡ two.next_channel)
    × ((j : ℕ)
        → s'.channel_at j ≡ (
            if is_subscriber j (slice_at btc_usd two.subscribers)
            then received quote (two.channel_at j)
            else two.channel_at j))
unfolding subscribe
update_quote_lem_example =
    update_quote_lem quote two (λ j. two-IsSound.opened btc_usd j) (two-IsSound.distinct btc_usd)

abbrev calls : List (Call ℤ)
calls =
    subscribing btc_usd
    ∷ subscribing eth_usd
    ∷ updating quote
    ∷ unsubscribing btc_usd 0
    ∷ unsubscribing btc_usd 0
    ∷ updating quote
    ∷ []

perform_all-IsSound_example :
    (s' : QuoteService ℤ) × (perform_all calls start ≡ some s') × IsSound s'
perform_all-IsSound_example = perform_all-IsSound calls start new_quote_service-IsSound

unsubscribe-during-deliver_example :
    (s' : QuoteService ℤ) × (unsubscribe btc_usd 1 two ≡ some s')
    × (deliver quote (slice_at btc_usd two.subscribers) s' ≡ none)
unfolding subscribe
unsubscribe-during-deliver_example =
    unsubscribe-during-deliver quote btc_usd 1 (0 ∷ []) two two-IsSound refl
