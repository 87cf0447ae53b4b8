-- ===== src/Ledger/Spec/Held.antt =====
-- The held balances, account by account, and what the specified operations do to them.
use micro_coin.Base.{
  ℕ, ◌≡◌, refl, ◌∙◌, true, false, List, [], ◌∷◌, Option, none, some, arith, ◌==◌, if◌then◌else◌,
  if_split, All, ℕ-cases, inl, inr, String,
}
use micro_coin.Decimal.{Decimal, IsDecimal, ◌⊕◌, ◌⊖◌, IsStorable}
use micro_coin.Models.{Account, Currency}
use micro_coin.Database.Tables.{Tables, set_balance, account_by_id, account_of}
use micro_coin.Database.Rows.{IsKeyed, set_balance-IsKeyed, set_balance-missing, by_id_of_owner}
use micro_coin.Ledger.Spec.{covered, rebalance, held, moved}
use micro_coin.Ledger.Spec.Invariant.{IsSound}
use micro_coin.Ledger.Spec.Preserved.{with_account-some, if-some}

module _ {D : Type 0} where
  abbrev pub holds : List (Account D) → List (ℕ × D)
  holds [] = []
  holds (a ∷ rs) = (a.id, a.balance_hold) ∷ holds rs

  abbrev pub hold_of : ℕ → List (ℕ × D) → Option D
  hold_of id [] = none
  hold_of id ((i, h) ∷ hs) = if i == id then some h else hold_of id hs

  pub hold_of-holds :
      (id : ℕ) {a : Account D} (rs : List (Account D))
      → account_by_id id rs ≡ some a
      → hold_of id (holds rs) ≡ some a.balance_hold
  hold_of-holds id [] h = cc
  hold_of-holds id {a} (b ∷ rs) h = ground (arith, hold_of-holds id {a = a} rs)

module _ {D : Type 0} ⦃dec : Decimal D⦄ where
  -- One account has more on hold.
  abbrev pub add_hold : ℕ → D → List (ℕ × D) → List (ℕ × D)
  add_hold id x [] = []
  add_hold id x ((i, h) ∷ hs) = (i, if i == id then h ⊕ x else h) ∷ add_hold id x hs

  abbrev pub AreStorable : List (ℕ × D) → Type 0
  AreStorable = All (λ h. IsStorable h.1)

  hold_of-IsStorable :
      (id : ℕ) {q : D} (hs : List (ℕ × D)) → AreStorable hs → hold_of id hs ≡ some q → IsStorable q
  hold_of-IsStorable id [] s h = cc
  hold_of-IsStorable id {q} ((i, h) ∷ hs) s e = elim (ℕ-cases i id) [
    | inl m ↦ let same : h ≡ q = ground arith in rw (← same) s.0
    | inr n ↦ hold_of-IsStorable id hs s.1 (ground arith)
  ]

  -- A write that leaves the held amount of the row as it was.
  holds-set_balance :
      (id : ℕ) (p q : D) (rs : List (Account D))
      → IsKeyed rs
      → IsStorable q
      → hold_of id (holds rs) ≡ some q
      → holds (set_balance id p q rs) ≡ holds rs
  holds-set_balance id p q [] k s h = refl
  holds-set_balance id p q (a ∷ rs) k s h = elim (ℕ-cases a.id id) [
    | inl e ↦
        let test : (a.id == id) ≡ true = ground arith in
        let absent : account_by_id id rs ≡ none = rw e at k.0 in
        let same : q ≡ a.balance_hold = ground arith in
        rw (test, set_balance-missing id p q rs absent, s, same) refl
    | inr n ↦
        let test : (a.id == id) ≡ false = ground arith in
        rw (test, holds-set_balance id p q rs k.1 s (ground arith)) refl
  ]

  add_hold-missing :
      (id : ℕ) (x : D) (rs : List (Account D))
      → account_by_id id rs ≡ none
      → add_hold id x (holds rs) ≡ holds rs
  add_hold-missing id x [] h = refl
  add_hold-missing id x (a ∷ rs) h = ground (arith, add_hold-missing id x rs)

  -- A write that adds to the held amount of the row.
  holds-set_balance_more :
      (id : ℕ) (p h x : D) (rs : List (Account D))
      → IsKeyed rs
      → IsStorable (h ⊕ x)
      → hold_of id (holds rs) ≡ some h
      → holds (set_balance id p (h ⊕ x) rs) ≡ add_hold id x (holds rs)
  holds-set_balance_more id p h x [] k s e = refl
  holds-set_balance_more id p h x (a ∷ rs) k s e = elim (ℕ-cases a.id id) [
    | inl m ↦
        let test : (a.id == id) ≡ true = ground arith in
        let absent : account_by_id id rs ≡ none = rw m at k.0 in
        let same : h ≡ a.balance_hold = ground arith in
        rw
          (
            test,
            set_balance-missing id p (h ⊕ x) rs absent,
            s,
            add_hold-missing id x rs absent,
            same,
          )
          refl
    | inr n ↦
        let test : (a.id == id) ≡ false = ground arith in
        rw (test, holds-set_balance_more id p h x rs k.1 s (ground arith)) refl
  ]

  -- Keys that stay distinct, and held amounts that stay as they were.
  abbrev pub Holds : List (ℕ × D) → Tables D → Type 0
  Holds hs t = IsKeyed t.accounts × (holds t.accounts ≡ hs)

  rebalance-Holds :
      (hs : List (ℕ × D)) (t : Tables D) (id : ℕ) (p q : D)
      → AreStorable hs
      → hold_of id hs ≡ some q
      → Holds hs t
      → Holds hs (rebalance t id p q)
  rebalance-Holds hs t id p q s h (k, e) = (
    set_balance-IsKeyed id p q t.accounts k,
    holds-set_balance id p q t.accounts k (hold_of-IsStorable id hs s h) (rw e h) ∙ e,
  )

  -- A transfer leaves every held amount as it was.
  pub moved-Holds :
      (hs : List (ℕ × D)) (journal now from to : ℕ) (x : D) (c : Currency) (ref_type : String)
      (ref_id : ℕ) (t t' : Tables D)
      → AreStorable hs
      → Holds hs t
      → moved journal now from to x c ref_type ref_id t ≡ some t'
      → Holds hs t'
  moved-Holds hs journal now from to x c ref_type ref_id t t' s v h =
      let (a, found, rest) = with_account-some (account_by_id from t.accounts) _ h in
      let (b, found', rest') = with_account-some (account_by_id to t.accounts) _ rest in
      let (cov, e) = if-some (covered x a.balance_available) rest' in
      let first =
        rebalance-Holds hs t from (a.balance_available ⊖ x) a.balance_hold s
          (rw (← v.1) (hold_of-holds from t.accounts found)) v in
      rw (← e) (
        rebalance-Holds hs
          (record (rebalance t from (a.balance_available ⊖ x) a.balance_hold) {
            ledger_entries = t'.ledger_entries;
            next_entry = t'.next_entry;
          })
          to (b.balance_available ⊕ x) b.balance_hold s
          (rw (← v.1) (hold_of-holds to t.accounts found')) first)

  -- A hold adds the amount to what the account has on hold, and to no other.
  pub held-Holds :
      (user : ℕ) (c : Currency) (x : D) (t t' : Tables D)
      → IsKeyed t.accounts
      → ((a : Account D) → account_of user c t.accounts ≡ some a → IsStorable (a.balance_hold ⊕ x))
      → held user c x t ≡ some t'
      → (a : Account D) × (account_of user c t.accounts ≡ some a)
        × Holds (add_hold a.id x (holds t.accounts)) t'
  held-Holds user c x t t' k s h =
      let (a, owned, rest) = with_account-some (account_of user c t.accounts) _ h in
      let (cov, e) = if-some (covered x a.balance_available) rest in
      let found = by_id_of_owner user c t.accounts k owned in
      (
        a,
        owned,
        rw (← e) (
          set_balance-IsKeyed a.id (a.balance_available ⊖ x) (a.balance_hold ⊕ x) t.accounts k,
          holds-set_balance_more a.id (a.balance_available ⊖ x) a.balance_hold x t.accounts k
              (s a owned) (hold_of-holds a.id t.accounts found),
        ),
      )

  pub sound-AreStorable : (rs : List (Account D)) → All IsSound rs → AreStorable (holds rs)
  sound-AreStorable [] s = tt
  sound-AreStorable (a ∷ rs) s = (s.0.hold_storable, sound-AreStorable rs s.1)

module _ {D : Type 0} ⦃dec : Decimal D⦄ ⦃laws : IsDecimal D⦄ where
  pub add_hold-AreStorable :
      (id : ℕ) (x : D) (hs : List (ℕ × D))
      → IsStorable x
      → AreStorable hs
      → AreStorable (add_hold id x hs)
  add_hold-AreStorable id x [] s st = tt
  add_hold-AreStorable id x ((i, h) ∷ hs) s st = (
    if_split (λ (y : D). IsStorable y) (i == id) (λ _. laws.numeric-add h x st.0 s) (λ _. st.0),
    add_hold-AreStorable id x hs s st.1,
  )
