-- ===== src/Ledger/Spec/Opened.antt =====
-- New accounts, with nothing in them, and the invariant.
use micro_coin.Base.{
  ℕ, ◌≡◌, ◌≢◌, refl, ◌∙◌, subst, List, [], ◌∷◌, ◌++◌, none, arith, All-append, ap,
}
use micro_coin.Decimal.{Decimal, IsDecimal, IsStorable, nought, ◌≼◌, negate}
use micro_coin.Decimal.Laws.{add-nought, add-neg}
use micro_coin.Models.{Account}
use micro_coin.Database.Tables.{Tables, account_by_id}
use micro_coin.Database.Rows.{IsKeyed}
use micro_coin.Ledger.Spec.Invariant.{IsSound, IsValid, Reconciles, posted}

module _ {D : Type 0} where
  pub missing-append :
      (id : ℕ) (rs : List (Account D)) (a : Account D)
      → account_by_id id rs ≡ none
      → a.id ≢ id
      → account_by_id id (rs ++ a ∷ []) ≡ none
  missing-append id [] a h n = ground arith
  missing-append id (b ∷ rs) a h n = ground (arith, missing-append id rs a)

  append-IsKeyed :
      (rs : List (Account D)) (a : Account D)
      → IsKeyed rs
      → account_by_id a.id rs ≡ none
      → IsKeyed (rs ++ a ∷ [])
  append-IsKeyed [] a k h = (refl, tt)
  append-IsKeyed (b ∷ rs) a k h =
      (ground (arith, missing-append b.id rs a), append-IsKeyed rs a k.1 (ground arith))

module _ {D : Type 0} ⦃dec : Decimal D⦄ ⦃laws : IsDecimal D⦄ where
  nought-IsStorable : IsStorable (nought {D = D})
  nought-IsStorable =
      let x = dec.numeric nought in
      let own = laws.numeric-numeric nought in
      let other : IsStorable (negate x) = laws.numeric-neg x ∙ ap (λ y. negate y) own in
      subst (λ (y : D). IsStorable y) (add-neg x) (laws.numeric-add x (negate x) own other)

  le_refl : (a : D) → a ≼ a
  le_refl a h = ground (arith, (laws.cmp-eq a a).1)

  -- An account is opened empty under an id that nothing has used.
  abbrev pub IsNew : Tables D → Account D → Type 0
  IsNew t a =
      (a.balance_available ≡ nought)
      × (a.balance_hold ≡ nought)
      × (account_by_id a.id t.accounts ≡ none)
      × (posted a.id t.ledger_entries ≡ nought)

  opened-IsSound :
      (a : Account D) → a.balance_available ≡ nought → a.balance_hold ≡ nought → IsSound a
  opened-IsSound a e e' = record {
    available_nonneg = rw e (le_refl nought);
    hold_nonneg = rw e' (le_refl nought);
    available_storable = rw e nought-IsStorable;
    hold_storable = rw e' nought-IsStorable;
  }

  pub opened-IsValid :
      (t : Tables D) (a : Account D)
      → IsValid t
      → IsNew t a
      → IsValid (record t { accounts = t.accounts ++ a ∷ [] })
  opened-IsValid t a v (e, e', absent, unposted) = record {
    keyed = append-IsKeyed t.accounts a v.keyed absent;
    sound = All-append IsSound t.accounts (a ∷ []) v.sound (opened-IsSound a e e', tt);
    balanced = v.balanced;
    reconciled =
        All-append (Reconciles t.ledger_entries) t.accounts (a ∷ []) v.reconciled
          ((λ n. rw (e, e', unposted) (add-nought nought)), tt);
  }
