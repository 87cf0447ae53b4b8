-- ===== src/Quotes/Entries.antt =====
-- The maps of internal/quotes/quotes.go: what is read from one after a write, and the symbols as keys.
use text.Mathlib.Text.{◌==◌ as str_eq}
use text.Mathlib.TextEquality.{path_by_compare}
use micro_coin.Base.{
  ℕ, ◌≡◌, ◌≢◌, ◌⊎◌, refl, ap, subst, true, false, Bool-cases, inl, inr, List, [], ◌∷◌, String, some,
  arith,
}
use micro_coin.Base.Text.{str_eq_refl}
use micro_coin.Models.{Symbol, btc_usd, eth_usd, other_symbol, same_symbol}
use micro_coin.Quotes.{entry, set_entry, slice_at}

str_eq-true : (a b : String) → str_eq a b ≡ true → a ≡ b
str_eq-true a b h = path_by_compare a b (ground arith)

pub same_symbol_refl : (s : Symbol) → same_symbol s s ≡ true
same_symbol_refl btc_usd = refl
same_symbol_refl eth_usd = refl
same_symbol_refl (other_symbol a) = str_eq_refl a

pub same_symbol-true : (s t : Symbol) → same_symbol s t ≡ true → s ≡ t
same_symbol-true btc_usd btc_usd h = refl
same_symbol-true eth_usd eth_usd h = refl
same_symbol-true (other_symbol a) (other_symbol b) h = ap other_symbol (str_eq-true a b h)
same_symbol-true btc_usd eth_usd h = cc
same_symbol-true btc_usd (other_symbol b) h = cc
same_symbol-true eth_usd btc_usd h = cc
same_symbol-true eth_usd (other_symbol b) h = cc
same_symbol-true (other_symbol a) btc_usd h = cc
same_symbol-true (other_symbol a) eth_usd h = cc

pub same_symbol-false : (s t : Symbol) → s ≢ t → same_symbol s t ≡ false
same_symbol-false s t n = elim (Bool-cases (same_symbol s t)) [
  | inl h ↦ elim (n (same_symbol-true s t h)) [ ]
  | inr h ↦ h
]

module _ {ℓ} {A : Type ℓ} where
  pub entry-set_entry :
      (s : Symbol) (v : A) (m : List (Symbol × A)) → entry s (set_entry s v m) ≡ some v
  entry-set_entry s v [] = rw (same_symbol_refl s) refl
  entry-set_entry s v ((t, u) ∷ m) = elim (Bool-cases (same_symbol t s)) [
    | inl h ↦ rw (h, h) refl
    | inr h ↦ rw (h, h) (entry-set_entry s v m)
  ]

  pub entry_other :
      (s t : Symbol) (v : A) (m : List (Symbol × A)) → s ≢ t → entry t (set_entry s v m) ≡ entry t m
  entry_other s t v [] n = rw (same_symbol-false s t n) refl
  entry_other s t v ((r, u) ∷ m) n = elim (Bool-cases (same_symbol r s)) [
    | inl h ↦
        let other : same_symbol r t ≡ false =
          rw (same_symbol-true r s h) (same_symbol-false s t n) in
        rw (h, other) refl
    | inr h ↦ elim (Bool-cases (same_symbol r t)) [
      | inl k ↦ rw (h, k) refl
      | inr k ↦ rw (h, k) (entry_other s t v m n)
    ]
  ]

pub Symbol-cases : (s t : Symbol) → (s ≡ t) ⊎ (s ≢ t)
Symbol-cases s t = elim (Bool-cases (same_symbol s t)) [
  | inl h ↦ inl (same_symbol-true s t h)
  | inr h ↦ inr (λ e. ground (arith, same_symbol_refl s, ap (same_symbol s) e))
]

slice_at-set_entry :
    (s : Symbol) (v : List ℕ) (m : List (Symbol × List ℕ)) → slice_at s (set_entry s v m) ≡ v
slice_at-set_entry s v m = rw (slice_at, entry-set_entry s v m) refl

-- A slice after a write: the one written, at its symbol, or the one before.
pub slice_after :
    (s t : Symbol) (v : List ℕ) (m : List (Symbol × List ℕ))
    → ((s ≡ t) × (slice_at t (set_entry s v m) ≡ v))
      ⊎ ((s ≢ t) × (slice_at t (set_entry s v m) ≡ slice_at t m))
slice_after s t v m = elim (Symbol-cases s t) [
  | inl e ↦ inl (e, subst (λ u. slice_at u (set_entry s v m) ≡ v) e (slice_at-set_entry s v m))
  | inr n ↦ inr (n, rw (slice_at, entry_other s t v m n) refl)
]
