-- ===== src/Quotes/Subscribers.antt =====
-- The slices of subscribers of internal/quotes/quotes.go, as lists of channels.
use micro_coin.Base.{
  ℕ, ◌≡◌, ◌⊎◌, refl, true, false, Bool-cases, inl, inr, List, [], ◌∷◌, ◌++◌, arith, ◌==◌,
}
use micro_coin.Quotes.{is_subscriber, without_channel}

-- No channel occurs twice.
abbrev pub Distinct : List ℕ → Type 0
Distinct [] = Unit
Distinct (c ∷ cs) = (is_subscriber c cs ≡ false) × Distinct cs

pub is_subscriber-append :
    (j ch : ℕ) (cs : List ℕ)
    → is_subscriber j (cs ++ ch ∷ []) ≡ true
    → (is_subscriber j cs ≡ true) ⊎ (j ≡ ch)
is_subscriber-append j ch [] h = ground arith
is_subscriber-append j ch (c ∷ cs) h = ground (arith, is_subscriber-append j ch cs)

pub append-Distinct :
    (ch : ℕ) (cs : List ℕ) → is_subscriber ch cs ≡ false → Distinct cs → Distinct (cs ++ ch ∷ [])
append-Distinct ch [] h d = (refl, tt)
append-Distinct ch (c ∷ cs) h (n, d) =
    (ground (arith, is_subscriber-append c ch cs), append-Distinct ch cs (ground arith) d)

pub subscriber_before :
    (j ch : ℕ) (cs : List ℕ)
    → is_subscriber j (without_channel ch cs) ≡ true
    → is_subscriber j cs ≡ true
subscriber_before j ch [] h = h
subscriber_before j ch (c ∷ cs) h = ground (arith, subscriber_before j ch cs)

pub without_channel-Distinct :
    (ch : ℕ) (cs : List ℕ) → Distinct cs → Distinct (without_channel ch cs)
without_channel-Distinct ch [] d = d
without_channel-Distinct ch (c ∷ cs) (n, d) = elim (Bool-cases (c == ch)) [
  | inl h ↦ rw h d
  | inr h ↦ rw h (ground (arith, subscriber_before c ch cs), without_channel-Distinct ch cs d)
]

pub not_subscriber_after :
    (ch : ℕ) (cs : List ℕ) → Distinct cs → is_subscriber ch (without_channel ch cs) ≡ false
not_subscriber_after ch [] d = refl
not_subscriber_after ch (c ∷ cs) (n, d) = ground (arith, not_subscriber_after ch cs d)
