-- ===== src/Quotes/Delivery.antt =====
-- internal/quotes/quotes.go: what a delivery does to the channels.
use micro_coin.Base.{
  ℕ, ◌≡◌, ◌≢◌, refl, ap, ◌∙◌, fun_ext, true, false, List, [], ◌∷◌, ◌++◌, some, arith, ltb,
  if◌then◌else◌, length,
}
use micro_coin.Models.{Symbol, Quote}
use micro_coin.Database.World.{ok}
use micro_coin.Quotes.{
  set_entry, Channel, QuoteService, channel_capacity, slice_at, is_subscriber, set_channel, offer,
  deliver, get_quote, update_quote,
}
use micro_coin.Quotes.Subscribers.{Distinct}
use micro_coin.Quotes.Entries.{entry-set_entry, entry_other}

module _ {D : Type 0} where
  -- A full channel drops the quote.
  abbrev pub received : Quote D → Channel D → Channel D
  received q c =
      if ltb (length c.waiting) channel_capacity
      then record c { waiting = c.waiting ++ q ∷ [] }
      else c

  -- The subscribers all at once.
  abbrev pub all_receive : Quote D → List ℕ → QuoteService D → QuoteService D
  all_receive q chs s = record s {
    channel_at = λ j. if is_subscriber j chs then received q (s.channel_at j) else s.channel_at j;
  }

  offer_open : (q : Quote D) (c : Channel D) → c.closed ≡ false → offer q c ≡ some (received q c)
  offer_open q c h = ground arith

  receive_one :
      (q : Quote D) (c : ℕ) (cs : List ℕ) (s : QuoteService D) (j : ℕ)
      → is_subscriber c cs ≡ false
      → (all_receive q cs (set_channel c (received q (s.channel_at c)) s)).channel_at j
        ≡ (all_receive q (c ∷ cs) s).channel_at j
  receive_one q c cs s j n = ground arith

  pub deliver_lem :
      (q : Quote D) (chs : List ℕ) (s : QuoteService D)
      → ((j : ℕ) → is_subscriber j chs ≡ true → (s.channel_at j).closed ≡ false)
      → Distinct chs
      → deliver q chs s ≡ some (all_receive q chs s)
  deliver_lem q [] s h d = refl
  deliver_lem q (c ∷ cs) s h (n, d) =
      let s' = set_channel c (received q (s.channel_at c)) s in
      let first = offer_open q (s.channel_at c) (h c (ground arith)) in
      let rest = deliver_lem q cs s' (λ j k. ground (arith, h j)) d in
      let same = fun_ext (λ j. receive_one q c cs s j n) in
      rw (deliver, first) (rest ∙ ap (λ f. some (record s { channel_at = f })) same)

  -- `updateQuote`, where the channels of the symbol are open and no channel is subscribed twice: it
  -- does not panic, the quote is the latest of its symbol, the quotes of the other symbols and the
  -- subscriptions stay, and each subscriber, and nobody else, receives the quote behind those that
  -- wait in its channel, or loses it if the channel is full.
  pub update_quote_lem :
      (q : Quote D) (s : QuoteService D)
      → ((j : ℕ)
          → is_subscriber j (slice_at q.symbol s.subscribers) ≡ true
          → (s.channel_at j).closed ≡ false)
      → Distinct (slice_at q.symbol s.subscribers)
      → (s' : QuoteService D) × (update_quote q s ≡ some s')
        × (get_quote q.symbol s' ≡ ok q)
        × ((t : Symbol) → q.symbol ≢ t → get_quote t s' ≡ get_quote t s)
        × (s'.subscribers ≡ s.subscribers)
        × (s'.next_channel ≡ s.next_channel)
        × ((j : ℕ)
            → s'.channel_at j ≡ (
                if is_subscriber j (slice_at q.symbol s.subscribers)
                then received q (s.channel_at j)
                else s.channel_at j))
  unfolding update_quote get_quote
  update_quote_lem q s h d =
      let written = record s { quotes = set_entry q.symbol q s.quotes } in
      let chs = slice_at q.symbol s.subscribers in
      (
        all_receive q chs written,
        deliver_lem q chs written h d,
        rw (get_quote, entry-set_entry q.symbol q s.quotes) refl,
        λ t n. rw (get_quote, entry_other q.symbol t q s.quotes n) refl,
        refl,
        refl,
        λ j. refl,
      )
