-- ===== src/Quotes.antt =====
-- internal/quotes/quotes.go: the latest quotes and the channels of their subscribers. A channel is a
-- number.
mod Tests
pub mod Entries
pub mod Delivery
pub mod Subscribers
pub mod Calls
pub mod Overlap
pub mod Feed
use micro_coin.Base.{
  ℕ, zero, suc, ◌+◌, ◌-◌, ◌≡◌, Bool, true, false, List, [], ◌∷◌, ◌++◌, Option, some, none, ◌==◌,
  ltb, if◌then◌else◌, length, get_elem?, take, drop,
}
use micro_coin.Models.{Symbol, same_symbol, Quote}
use micro_coin.Database.World.{Result, ok, err, message}

-- `make(chan *models.Quote, 10)`: what waits in it, the oldest first.
pub record Channel (D : Type 0) : Type 0 where
  pub waiting : List (Quote D)
  pub closed : Bool

abbrev pub channel_capacity : ℕ
channel_capacity = 10

pub record QuoteService (D : Type 0) : Type 0 where
  pub quotes : List (Symbol × Quote D)
  pub subscribers : List (Symbol × List ℕ)
  pub channel_at : ℕ → Channel D
  pub next_channel : ℕ

module _ {ℓ} {A : Type ℓ} where
  -- A map whose keys are symbols.
  abbrev pub entry : Symbol → List (Symbol × A) → Option A
  entry s [] = none
  entry s ((t, v) ∷ rest) = if same_symbol t s then some v else entry s rest

  abbrev pub set_entry : Symbol → A → List (Symbol × A) → List (Symbol × A)
  set_entry s v [] = (s, v) ∷ []
  set_entry s v ((t, u) ∷ rest) =
      if same_symbol t s then (t, v) ∷ rest else (t, u) ∷ set_entry s v rest

-- A missing key of a map of slices is the nil slice.
abbrev pub slice_at : Symbol → List (Symbol × List ℕ) → List ℕ
slice_at s m = elim (entry s m) [ none ↦ [] | some v ↦ v ]

-- `append(subscribers[:i], subscribers[i+1:]...)` for the first subscriber that is the channel.
abbrev pub without_channel : ℕ → List ℕ → List ℕ
without_channel ch [] = []
without_channel ch (c ∷ cs) = if c == ch then cs else c ∷ without_channel ch cs

abbrev pub is_subscriber : ℕ → List ℕ → Bool
is_subscriber ch [] = false
is_subscriber ch (c ∷ cs) = if c == ch then true else is_subscriber ch cs

module _ {D : Type 0} where
  abbrev pub set_channel : ℕ → Channel D → QuoteService D → QuoteService D
  set_channel ch c s = record s { channel_at = λ j. if ch == j then c else s.channel_at j }

  unfoldable pub get_quote : Symbol → QuoteService D → Result (Quote D)
  get_quote symbol s = elim (entry symbol s.quotes) [
    | none ↦ err (message "no quote available for symbol")
    | some q ↦ ok q
  ]

  abbrev pub new_quote_service : QuoteService D
  new_quote_service = record {
    quotes = [];
    subscribers = [];
    channel_at = λ j. record { waiting = []; closed = false };
    next_channel = 0;
  }

  unfoldable pub subscribe : Symbol → QuoteService D → ℕ × QuoteService D
  subscribe symbol s =
      let ch = s.next_channel in
      let s' = set_channel ch (record { waiting = []; closed = false }) s in
      (
        ch,
        record s' {
          subscribers = set_entry symbol (slice_at symbol s.subscribers ++ ch ∷ []) s.subscribers;
          next_channel = suc ch;
        },
      )

  -- A second close of a channel is a panic; `none`.
  unfoldable pub unsubscribe : Symbol → ℕ → QuoteService D → Option (QuoteService D)
  unsubscribe symbol ch s =
      let subs = slice_at symbol s.subscribers in
      let s' = record s {
        subscribers = set_entry symbol (without_channel ch subs) s.subscribers;
      } in
      if is_subscriber ch subs
      then (if (s.channel_at ch).closed
          then none
          else some (set_channel ch (record (s.channel_at ch) { closed = true }) s'))
      else some s

  -- `select { case ch <- quote: default: }`; a send on a closed channel is a panic.
  abbrev pub offer : Quote D → Channel D → Option (Channel D)
  offer q c =
      if c.closed
      then none
      else if ltb (length c.waiting) channel_capacity
      then some (record c { waiting = c.waiting ++ q ∷ [] })
      else some c

  abbrev pub deliver : Quote D → List ℕ → QuoteService D → Option (QuoteService D)
  deliver q [] s = some s
  deliver q (ch ∷ chs) s = elim (offer q (s.channel_at ch)) [
    | none ↦ none
    | some c ↦ deliver q chs (set_channel ch c s)
  ]

  unfoldable pub update_quote : Quote D → QuoteService D → Option (QuoteService D)
  update_quote q s =
      let s' = record s { quotes = set_entry q.symbol q s.quotes } in
      deliver q (slice_at q.symbol s.subscribers) s'
