-- ===== src/Quotes/Overlap.antt =====
-- internal/quotes/quotes.go: `updateQuote` reads the slice of subscribers under the lock and sends
-- after it is released, so `Unsubscribe` can run in between.
use micro_coin.Base.{
  ℕ, ◌≡◌, refl, true, Option-cases, inl, inr, List, [], ◌∷◌, ◌++◌, some, none, arith, ℕ-cases,
}
use micro_coin.Models.{Symbol, Quote}
use micro_coin.Quotes.{
  QuoteService, slice_at, without_channel, is_subscriber, set_channel, set_entry, offer, deliver,
  unsubscribe,
}
use micro_coin.Quotes.Calls.{IsSound}

is_subscriber_last : (ch : ℕ) (cs : List ℕ) → is_subscriber ch (cs ++ ch ∷ []) ≡ true
is_subscriber_last ch [] = ground arith
is_subscriber_last ch (c ∷ cs) = ground (arith, is_subscriber_last ch cs)

module _ {D : Type 0} where
  deliver_closed :
      (q : Quote D) (ch : ℕ) (chs : List ℕ) (s : QuoteService D)
      → is_subscriber ch chs ≡ true
      → (s.channel_at ch).closed ≡ true
      → deliver q chs s ≡ none
  deliver_closed q ch [] s h k = cc
  deliver_closed q ch (c ∷ cs) s h k = elim (ℕ-cases c ch) [
    | inl e ↦
        let first : offer q (s.channel_at c) ≡ none = rw (e, k) refl in rw (deliver, first) refl
    | inr n ↦ elim (Option-cases (offer q (s.channel_at c))) [
      | inl first ↦ rw (deliver, first) refl
      | inr (c', first) ↦
          let h' : is_subscriber ch cs ≡ true = ground arith in
          rw (deliver, first) (deliver_closed q ch cs (set_channel c c' s) h' (ground arith))
    ]
  ]

  -- When the last subscriber of a symbol unsubscribes while `updateQuote` holds the slice that it
  -- read before, the delivery panics with a send on a closed channel. (`Unsubscribe` shifts the array
  -- under the slice; at its last place the removed channel stays.)
  pub unsubscribe-during-deliver :
      (q : Quote D) (symbol : Symbol) (ch : ℕ) (others : List ℕ) (s : QuoteService D)
      → IsSound s
      → slice_at symbol s.subscribers ≡ others ++ ch ∷ []
      → (s' : QuoteService D) × (unsubscribe symbol ch s ≡ some s')
        × (deliver q (slice_at symbol s.subscribers) s' ≡ none)
  unfolding unsubscribe
  unsubscribe-during-deliver q symbol ch others s v h =
      let subs = slice_at symbol s.subscribers in
      let m : is_subscriber ch subs ≡ true = rw h (is_subscriber_last ch others) in
      let s' =
        set_channel ch (record (s.channel_at ch) { closed = true })
          (record s { subscribers = set_entry symbol (without_channel ch subs) s.subscribers }) in
      (s', rw (m, v.opened symbol ch m) refl, deliver_closed q ch subs s' m (ground arith))
