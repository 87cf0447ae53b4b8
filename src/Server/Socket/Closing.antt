-- ===== src/Server/Socket/Closing.antt =====
-- What a connection of `websocketQuotesHandler` leaves behind.
use micro_coin.Base.{
  ℕ, suc, ◌⊎◌, ◌≡◌, ◌≢◌, refl, Bool, true, false, Bool-cases, Option-cases, inl, inr, List, [], ◌∷◌,
  ◌++◌, Option, some, arith, if◌then◌else◌,
}
use micro_coin.Models.{Symbol, btc_usd, eth_usd, Quote}
use micro_coin.Quotes.{
  QuoteService, slice_at, set_entry, is_subscriber, without_channel, unsubscribe, subscribe,
  set_channel,
}
use micro_coin.Quotes.Entries.{slice_after}
use micro_coin.Quotes.Subscribers.{not_subscriber_after}
use micro_coin.Quotes.Calls.{IsSound, perform-IsSound, unsubscribing-IsSound, subscribing-IsSound}
use micro_coin.Server.Socket.{
  Event, other, chosen, Session, not_upgraded, serving, hung_up, crashed, receive, hang_up,
  select_loop, websocket_quotes_handler,
}

module _ {D : Type 0} where
  unsubscribe_cases :
      (symbol : Symbol) (ch : ℕ) (s s' : QuoteService D)
      → unsubscribe symbol ch s ≡ some s'
      → (is_subscriber ch (slice_at symbol s.subscribers) ≡ false) × (s' ≡ s)
        ⊎ (s'.subscribers
            ≡ set_entry symbol (without_channel ch (slice_at symbol s.subscribers)) s.subscribers)
  unfolding unsubscribe
  unsubscribe_cases symbol ch s s' h =
      elim (Bool-cases (is_subscriber ch (slice_at symbol s.subscribers))) [
        | inl e ↦ inr (ground arith)
        | inr e ↦ inl (e, ground arith)
      ]

  -- After `Unsubscribe`, the channel is no subscriber.
  unsubscribed :
      (symbol : Symbol) (ch : ℕ) (s s' : QuoteService D)
      → IsSound s
      → unsubscribe symbol ch s ≡ some s'
      → is_subscriber ch (slice_at symbol s'.subscribers) ≡ false
  unsubscribed symbol ch s s' v h =
      let subs = slice_at symbol s.subscribers in
      elim (unsubscribe_cases symbol ch s s' h) [
        | inl (e, same) ↦ rw same e
        | inr e ↦ elim (slice_after symbol symbol (without_channel ch subs) s.subscribers) [
          | inl (_, k) ↦ rw (e, k) (not_subscriber_after ch subs (v.distinct symbol))
          | inr (n, k) ↦ absurd (n refl)
        ]
      ]

  -- The subscribers of another symbol stay.
  others_stay :
      (symbol t : Symbol) (ch : ℕ) (s s' : QuoteService D)
      → unsubscribe symbol ch s ≡ some s'
      → symbol ≢ t
      → slice_at t s'.subscribers ≡ slice_at t s.subscribers
  others_stay symbol t ch s s' h n = elim (unsubscribe_cases symbol ch s s' h) [
    | inl (e, same) ↦ rw same refl
    | inr e ↦
        elim (slice_after symbol t (without_channel ch (slice_at symbol s.subscribers))
          s.subscribers) [ inl (m, k) ↦ absurd (n m) | inr (m, k) ↦ rw (e, k) refl ]
  ]

  -- A receive takes a quote out of the channel or, from a closed channel, leaves the state.
  received_shape :
      (ch : ℕ) (s s' : QuoteService D) (q : Option (Quote D))
      → receive ch s ≡ some (q, s')
      → (s' ≡ s)
        ⊎ ((p : Quote D) × (qs : List (Quote D)) × ((s.channel_at ch).waiting ≡ p ∷ qs)
            × (s' ≡ set_channel ch (record (s.channel_at ch) { waiting = qs }) s))
  received_shape ch s s' q h = go (s.channel_at ch).waiting refl
    where
      go :
          (qs : List (Quote D))
          → (s.channel_at ch).waiting ≡ qs
          → (s' ≡ s)
            ⊎ ((p : Quote D) × (rest : List (Quote D)) × ((s.channel_at ch).waiting ≡ p ∷ rest)
                × (s' ≡ set_channel ch (record (s.channel_at ch) { waiting = rest }) s))
      go [] e = inl (ground arith)
      go (p ∷ qs) e = inr (p, qs, ground arith, ground arith)

  receive-IsSound :
      (ch : ℕ) (s s' : QuoteService D) (q : Option (Quote D))
      → IsSound s
      → receive ch s ≡ some (q, s')
      → IsSound s'
  receive-IsSound ch s s' q v h = elim (received_shape ch s s' q h) [
    | inl same ↦ rw same v
    | inr (p, qs, had, new) ↦ rw new (record {
      opened = λ t j k. ground (arith, v.opened t j k);
      known = v.known;
      single = v.single;
      distinct = v.distinct;
      bounded = λ j. ground (arith, v.bounded j, v.bounded ch);
    })
  ]

  -- No panic; and if the connection has ended, its channels are subscribed no more.
  abbrev pub IsClean : ℕ → ℕ → Session D → Type 0
  IsClean btc_ch eth_ch (not_upgraded s) = IsSound s
  IsClean btc_ch eth_ch (serving sent s) = IsSound s
  IsClean btc_ch eth_ch (hung_up sent s) =
      IsSound s
      × (is_subscriber btc_ch (slice_at btc_usd s.subscribers) ≡ false)
      × (is_subscriber eth_ch (slice_at eth_usd s.subscribers) ≡ false)
  IsClean btc_ch eth_ch crashed = ⊥

  hang_up-IsSound :
      (btc_ch eth_ch : ℕ) (s : QuoteService D)
      → IsSound s
      → (s' : QuoteService D) × (hang_up btc_ch eth_ch s ≡ some s')
        × IsSound s'
        × (is_subscriber btc_ch (slice_at btc_usd s'.subscribers) ≡ false)
        × (is_subscriber eth_ch (slice_at eth_usd s'.subscribers) ≡ false)
  hang_up-IsSound btc_ch eth_ch s v =
      let (s₁, run₁, v₁) = unsubscribing-IsSound eth_usd eth_ch s v in
      let (s₂, run₂, v₂) = unsubscribing-IsSound btc_usd btc_ch s₁ v₁ in
      (
        s₂,
        rw (hang_up, run₁) run₂,
        v₂,
        unsubscribed btc_usd btc_ch s₁ s₂ v₁ run₂,
        rw (others_stay btc_usd eth_usd btc_ch s₁ s₂ run₂ (λ e. cc))
            (unsubscribed eth_usd eth_ch s s₁ v run₁),
      )

  select_loop-IsClean :
      (es : List (Event D)) (btc_ch eth_ch : ℕ) (sent : List (Option (Quote D)))
      (s : QuoteService D)
      → IsSound s
      → IsClean btc_ch eth_ch (select_loop es btc_ch eth_ch sent s)
  unfolding select_loop
  select_loop-IsClean [] btc_ch eth_ch sent s v = v
  select_loop-IsClean (other c ∷ es) btc_ch eth_ch sent s v =
      let (s', run, v') = perform-IsSound c s v in
      rw (select_loop, run) (select_loop-IsClean es btc_ch eth_ch sent s' v')
  select_loop-IsClean (chosen on_btc written ∷ es) btc_ch eth_ch sent s v =
      let ch = if on_btc then btc_ch else eth_ch in
      elim (Option-cases (receive ch s)) [
        | inl none_ ↦ rw (select_loop, none_) (select_loop-IsClean es btc_ch eth_ch sent s v)
        | inr ((q, s'), got) ↦
            let v' = receive-IsSound ch s s' q v got in
            elim (Bool-cases written) [
              | inl ok ↦
                  rw (select_loop, got, ok)
                    (select_loop-IsClean es btc_ch eth_ch (sent ++ q ∷ []) s' v')
              | inr lost ↦
                  let (s'', run, v'', gone, gone') = hang_up-IsSound btc_ch eth_ch s' v' in
                  rw (select_loop, got, lost, run) (v'', gone, gone')
            ]
      ]

  -- A connection served from a sound state of the quote service, while other goroutines subscribe,
  -- unsubscribe and deliver quotes between its rounds, in any order and even of its own channels:
  -- nothing panics and the state stays sound, and once a failed write has ended the connection, its two
  -- channels are subscribed no more.
  pub websocket_quotes_handler-IsClean :
      (upgraded : Bool) (events : List (Event D)) (s : QuoteService D)
      → IsSound s
      → IsClean s.next_channel (suc s.next_channel) (websocket_quotes_handler upgraded events s)
  unfolding websocket_quotes_handler subscribe
  websocket_quotes_handler-IsClean true events s v =
      let s' = (subscribe btc_usd s).1 in
      let v' = subscribing-IsSound eth_usd s' (subscribing-IsSound btc_usd s v) in
      select_loop-IsClean events s.next_channel (suc s.next_channel) [] (subscribe eth_usd s').1 v'
  websocket_quotes_handler-IsClean false events s v = v
