-- ===== src/Quotes/Calls.antt =====
-- internal/quotes/quotes.go: sequences of calls of the quote service, and its invariant.
use micro_coin.Base.{
  ℕ, ◌<◌, ◌≤◌, ◌≡◌, ◌≢◌, refl, sym, subst, ◌∙◌, if_split, true, false, Bool-cases, inl, inr, ◌⊎◌,
  List, [], ◌∷◌, ◌++◌, Option, some, none, arith, length, length-append,
}
use micro_coin.Models.{Symbol, Quote}
use micro_coin.Quotes.{
  Channel, QuoteService, channel_capacity, set_entry, slice_at, is_subscriber, without_channel,
  set_channel, subscribe, unsubscribe, update_quote, new_quote_service,
}
use micro_coin.Quotes.Entries.{slice_after}
use micro_coin.Quotes.Subscribers.{
  Distinct, is_subscriber-append, append-Distinct, subscriber_before, without_channel-Distinct,
  not_subscriber_after,
}
use micro_coin.Quotes.Delivery.{received, update_quote_lem}

pub data Call (D : Type 0) : Type 0 where
  subscribing : Symbol → Call D
  unsubscribing : Symbol → ℕ → Call D
  updating : Quote D → Call D

module _ {D : Type 0} where
  abbrev pub perform : Call D → QuoteService D → Option (QuoteService D)
  perform (subscribing symbol) s = some (subscribe symbol s).1
  perform (unsubscribing symbol ch) s = unsubscribe symbol ch s
  perform (updating q) s = update_quote q s

  -- The calls one after the other; `none` is a panic.
  abbrev pub perform_all : List (Call D) → QuoteService D → Option (QuoteService D)
  perform_all [] s = some s
  perform_all (c ∷ cs) s = elim (perform c s) [ none ↦ none | some s' ↦ perform_all cs s' ]

  abbrev pub Subscribes : Symbol → ℕ → QuoteService D → Type 0
  Subscribes symbol ch s = is_subscriber ch (slice_at symbol s.subscribers) ≡ true

  pub record IsSound (s : QuoteService D) : Type 0 where
    pub opened :
        (symbol : Symbol) (ch : ℕ) → Subscribes symbol ch s → (s.channel_at ch).closed ≡ false
    pub known : (symbol : Symbol) (ch : ℕ) → Subscribes symbol ch s → ch < s.next_channel
    pub single : (a b : Symbol) (ch : ℕ) → Subscribes a ch s → Subscribes b ch s → a ≡ b
    pub distinct : (symbol : Symbol) → Distinct (slice_at symbol s.subscribers)
    pub bounded : (ch : ℕ) → length (s.channel_at ch).waiting ≤ channel_capacity

  received_bound :
      (q : Quote D) (c : Channel D)
      → length c.waiting ≤ channel_capacity
      → length (received q c).waiting ≤ channel_capacity
  received_bound q c h = ground (arith, length-append c.waiting (q ∷ []))

  received_closed : (q : Quote D) (c : Channel D) → (received q c).closed ≡ c.closed
  received_closed q c = ground arith

  updating-IsSound :
      (q : Quote D) (s : QuoteService D)
      → IsSound s
      → (s' : QuoteService D) × (update_quote q s ≡ some s') × IsSound s'
  updating-IsSound q s v =
      let (s', run, latest, others, same, next, each) =
        update_quote_lem q s (λ j. v.opened q.symbol j) (v.distinct q.symbol) in
      (
        s',
        run,
        record {
          opened = λ t ch h. rw (each ch) (
              if_split (λ (c : Channel D). c.closed ≡ false)
                (is_subscriber ch (slice_at q.symbol s.subscribers))
                (λ _. received_closed q (s.channel_at ch) ∙ v.opened t ch (rw (← same) h))
                (λ _. v.opened t ch (rw (← same) h)));
          known = λ t ch h. rw next (v.known t ch (rw (← same) h));
          single = λ a b ch h h'. v.single a b ch (rw (← same) h) (rw (← same) h');
          distinct = λ t. rw same (v.distinct t);
          bounded = λ ch. rw (each ch) (
              if_split (λ (c : Channel D). length c.waiting ≤ channel_capacity)
                (is_subscriber ch (slice_at q.symbol s.subscribers))
                (λ _. received_bound q (s.channel_at ch) (v.bounded ch)) (λ _. v.bounded ch));
        },
      )

  -- Who is subscribed after `subscribe`.
  after_subscribe :
      (symbol t : Symbol) (ch : ℕ) (s : QuoteService D)
      → Subscribes t ch (subscribe symbol s).1
      → Subscribes t ch s ⊎ ((t ≡ symbol) × (ch ≡ s.next_channel))
  unfolding subscribe
  after_subscribe symbol t ch s h =
      let subs = slice_at symbol s.subscribers in
      let n = s.next_channel in
      elim (slice_after symbol t (subs ++ n ∷ []) s.subscribers) [
        | inl (e, k) ↦ elim (is_subscriber-append ch n subs (rw (← k) h)) [
          | inl old ↦ inl (subst (λ u. Subscribes u ch s) e old)
          | inr m ↦ inr (sym e, m)
        ]
        | inr (e, k) ↦ inl (rw (← k) h)
      ]

  pub subscribing-IsSound :
      (symbol : Symbol) (s : QuoteService D) → IsSound s → IsSound (subscribe symbol s).1
  unfolding subscribe
  subscribing-IsSound symbol s v =
      let subs = slice_at symbol s.subscribers in
      let n = s.next_channel in
      record {
        opened = λ t ch h. elim (after_subscribe symbol t ch s h) [
          | inl old ↦ ground (arith, v.known t ch old, v.opened t ch old)
          | inr (e, m) ↦ ground arith
        ];
        known = λ t ch h. elim (after_subscribe symbol t ch s h) [
          | inl old ↦ omega (arith, v.known t ch old)
          | inr (e, m) ↦ omega arith
        ];
        single = λ a b ch h h'. elim (after_subscribe symbol a ch s h) [
          | inl old ↦ elim (after_subscribe symbol b ch s h') [
            | inl old' ↦ v.single a b ch old old'
            | inr (e', m') ↦ grind (arith, v.known a ch old)
          ]
          | inr (e, m) ↦ elim (after_subscribe symbol b ch s h') [
            | inl old' ↦ grind (arith, v.known b ch old')
            | inr (e', m') ↦ e ∙ sym e'
          ]
        ];
        distinct = λ t. elim (slice_after symbol t (subs ++ n ∷ []) s.subscribers) [
          | inl (e, k) ↦
              rw k (append-Distinct n subs (ground (arith, v.known symbol n)) (v.distinct symbol))
          | inr (e, k) ↦ rw k (v.distinct t)
        ];
        bounded = λ ch. ground (arith, v.bounded ch);
      }

  -- The slice of the symbol is `cs` in place of its own.
  abbrev with_slice : Symbol → List ℕ → QuoteService D → QuoteService D
  with_slice symbol cs s = record s { subscribers = set_entry symbol cs s.subscribers }

  after_unsubscribe :
      (symbol t : Symbol) (j ch : ℕ) (s : QuoteService D)
      → IsSound s
      → Subscribes symbol ch s
      → Subscribes t j (with_slice symbol (without_channel ch (slice_at symbol s.subscribers)) s)
      → Subscribes t j s × (j ≢ ch)
  after_unsubscribe symbol t j ch s v h k =
      let subs = slice_at symbol s.subscribers in
      elim (slice_after symbol t (without_channel ch subs) s.subscribers) [
        | inl (e, eq) ↦
            let k' : is_subscriber j (without_channel ch subs) ≡ true = rw (← eq) k in
            (
              subst (λ u. Subscribes u j s) e (subscriber_before j ch subs k'),
              λ m. ground (arith, not_subscriber_after ch subs (v.distinct symbol)),
            )
        | inr (n, eq) ↦
            let k' : Subscribes t j s = rw (← eq) k in
            (k', λ m. n (v.single symbol t ch h (rw (← m) k')))
      ]

  pub unsubscribing-IsSound :
      (symbol : Symbol) (ch : ℕ) (s : QuoteService D)
      → IsSound s
      → (s' : QuoteService D) × (unsubscribe symbol ch s ≡ some s') × IsSound s'
  unfolding unsubscribe
  unsubscribing-IsSound symbol ch s v =
      let subs = slice_at symbol s.subscribers in
      elim (Bool-cases (is_subscriber ch subs)) [
        | inl h ↦ (
          set_channel ch (record (s.channel_at ch) { closed = true })
              (with_slice symbol (without_channel ch subs) s),
          rw (h, v.opened symbol ch h) refl,
          record {
            opened = λ t j k.
                let (k', n) = after_unsubscribe symbol t j ch s v h k in
                ground (arith, v.opened t j k');
            known = λ t j k. v.known t j (after_unsubscribe symbol t j ch s v h k).0;
            single = λ a b j k k'.
                v.single a b j (after_unsubscribe symbol a j ch s v h k).0
                  (after_unsubscribe symbol b j ch s v h k').0;
            distinct = λ t. elim (slice_after symbol t (without_channel ch subs) s.subscribers) [
              | inl (e, k) ↦ rw k (without_channel-Distinct ch subs (v.distinct symbol))
              | inr (e, k) ↦ rw k (v.distinct t)
            ];
            bounded = λ j. ground (arith, v.bounded j, v.bounded ch);
          },
        )
        | inr h ↦ (s, rw h refl, v)
      ]

  pub perform-IsSound :
      (c : Call D) (s : QuoteService D)
      → IsSound s
      → (s' : QuoteService D) × (perform c s ≡ some s') × IsSound s'
  perform-IsSound (subscribing symbol) s v =
      ((subscribe symbol s).1, refl, subscribing-IsSound symbol s v)
  perform-IsSound (unsubscribing symbol ch) s v = unsubscribing-IsSound symbol ch s v
  perform-IsSound (updating q) s v = updating-IsSound q s v

  -- Calls of `Subscribe`, `Unsubscribe` and `updateQuote` that do not overlap never panic, from a
  -- sound state of the service on: no channel is closed twice or sent to after it was closed. They
  -- keep the state sound: every subscribed channel is open and known, is subscribed once and for one
  -- symbol, and no channel holds more than 10 quotes.
  pub perform_all-IsSound :
      (cs : List (Call D)) (s : QuoteService D)
      → IsSound s
      → (s' : QuoteService D) × (perform_all cs s ≡ some s') × IsSound s'
  perform_all-IsSound [] s v = (s, refl, v)
  perform_all-IsSound (c ∷ cs) s v =
      let (s', run, v') = perform-IsSound c s v in
      let (s'', run', v'') = perform_all-IsSound cs s' v' in (s'', rw (perform_all, run) run', v'')

  pub new_quote_service-IsSound : IsSound new_quote_service
  new_quote_service-IsSound = record {
    opened = λ t ch h. refl;
    known = λ t ch h. cc;
    single = λ a b ch h h'. cc;
    distinct = λ t. tt;
    bounded = λ ch. omega arith;
  }
