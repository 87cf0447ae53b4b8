-- ===== src/Ledger/Spec/Posted.antt =====
-- The operations that post a journal keep the invariant.
use micro_coin.Base.{
  ℕ, suc, ◌≡◌, ◌≢◌, refl, subst, ap, ◌∙◌, List, [], ◌∷◌, ◌++◌, some, arith, All, All-map, String,
}
use micro_coin.Decimal.{
  Decimal, IsDecimal, nought, ◌⊕◌, ◌⊖◌, negate, ◌≼◌, ◌≺◌, IsStorable, less_than,
}
use micro_coin.Decimal.Laws.{group_laws, le_of_lt, sub_nonneg, add_nonneg, sub-IsStorable}
use micro_coin.Models.{Account, LedgerEntry, Currency, uuid_nil, usd}
use micro_coin.Database.Tables.{Tables, set_balance, account_by_id, account_of}
use micro_coin.Database.Rows.{
  IsKeyed, set_balance-IsKeyed, set_balance-All, account_by_id-set_balance, All-found,
  by_id_of_owner, id_of_found,
}
use micro_coin.Ledger.Journal.{entry_of}
use micro_coin.Ledger.Spec.{covered, rebalance, moved, topped_up, post}
use micro_coin.Ledger.Spec.Invariant.{
  IsSound, IsValid, Reconciles, credit-Reconciles, append-Reconciles, sum_entries-append,
  sum_entries,
}
use micro_coin.Ledger.Spec.Preserved.{
  with_account-some, if-some, covered_lem, IsFunded, set_balance-IsSound,
}

module _ {D : Type 0} ⦃dec : Decimal D⦄ ⦃laws : IsDecimal D⦄ where
  neg-storable : (x : D) → IsStorable x → dec.numeric (negate x) ≡ negate x
  neg-storable x s = laws.numeric-neg x ∙ ap negate s

  -- One entry, met by the balance of its account.
  post_one :
      (es : List (LedgerEntry D)) (e : LedgerEntry D) (a : Account D) (p q : D)
      (rs : List (Account D))
      → account_by_id e.account_id rs ≡ some a
      → IsFunded p q
      → p ⊕ q ≡ a.balance_available ⊕ a.balance_hold ⊕ e.amount
      → IsKeyed rs
      → All (Reconciles es) rs
      → All (Reconciles (es ++ e ∷ [])) (set_balance e.account_id p q rs)
  post_one es e a p q rs found f grown k r =
      set_balance-All (Reconciles es) (Reconciles (es ++ e ∷ [])) e.account_id p q rs
        (λ b found' rb.
          let same : a ≡ b = cc (found, found') in
          credit-Reconciles es e b
            (record b { balance_available = dec.numeric p; balance_hold = dec.numeric q })
            (id_of_found e.account_id rs found') refl (rw (f.2, f.3, grown, same)) rb)
        (λ b n rb. append-Reconciles es e b n rb) k r

  journal_balanced :
      (es : List (LedgerEntry D)) (d e : LedgerEntry D)
      → sum_entries (λ r. r.amount) es ≡ nought
      → d.amount ⊕ e.amount ≡ nought
      → sum_entries (λ r. r.amount) ((es ++ d ∷ []) ++ e ∷ []) ≡ nought
  journal_balanced es d e h k =
      rw
        (
          sum_entries-append (λ r. r.amount) (es ++ d ∷ []) e,
          sum_entries-append (λ r. r.amount) es d,
          h,
        )
        (simp group_laws k)

  stored_pair : (x : D) → IsStorable x → dec.numeric (negate x) ⊕ dec.numeric x ≡ nought
  stored_pair x s = rw (neg-storable x s, s) (simp group_laws)

  debited : (a h x : D) → IsStorable x → a ⊖ x ⊕ h ≡ a ⊕ h ⊕ dec.numeric (negate x)
  debited a h x s = rw (neg-storable x s) (simp group_laws)

  credited : (a h x : D) → IsStorable x → a ⊕ x ⊕ h ≡ a ⊕ h ⊕ dec.numeric x
  credited a h x s = rw s (simp group_laws)

  taken-IsFunded :
      (a : Account D) (x : D)
      → IsSound a
      → IsStorable x
      → x ≼ a.balance_available
      → IsFunded (a.balance_available ⊖ x) a.balance_hold
  taken-IsFunded a x ok s enough = (
    sub_nonneg a.balance_available x enough,
    ok.hold_nonneg,
    sub-IsStorable a.balance_available x ok.available_storable s,
    ok.hold_storable,
  )

  given-IsFunded :
      (a : Account D) (x : D)
      → IsSound a
      → IsStorable x
      → nought ≺ x
      → IsFunded (a.balance_available ⊕ x) a.balance_hold
  given-IsFunded a x ok s pos = (
    add_nonneg a.balance_available x ok.available_nonneg (le_of_lt nought x pos),
    ok.hold_nonneg,
    laws.numeric-add a.balance_available x ok.available_storable s,
    ok.hold_storable,
  )

  module _ (t : Tables D) (v : IsValid t) (x : D) (s : IsStorable x) (pos : nought ≺ x) where
    -- A transfer, with its two accounts found.
    transfer_rows-IsValid :
        (journal now from to : ℕ) (c : Currency) (ref_type : String) (ref_id : ℕ) (a b : Account D)
        → from ≢ to
        → account_by_id from t.accounts ≡ some a
        → account_by_id to t.accounts ≡ some b
        → x ≼ a.balance_available
        → IsValid (
            rebalance
              (rebalance
                (post t now
                  (entry_of journal from (negate x) c ref_type ref_id)
                  (entry_of journal to x c ref_type ref_id))
                from
                (a.balance_available ⊖ x)
                a.balance_hold)
              to
              (b.balance_available ⊕ x)
              b.balance_hold)
    transfer_rows-IsValid journal now from to c ref_type ref_id a b ne found found' enough =
        let p = a.balance_available ⊖ x in
        let q = b.balance_available ⊕ x in
        let fa = taken-IsFunded a x (All-found IsSound from t.accounts v.sound found) s enough in
        let fb = given-IsFunded b x (All-found IsSound to t.accounts v.sound found') s pos in
        let rows = set_balance from p a.balance_hold t.accounts in
        let keyed = set_balance-IsKeyed from p a.balance_hold t.accounts v.keyed in
        let kept : account_by_id to rows ≡ some b =
          ground (arith, account_by_id-set_balance to from p a.balance_hold t.accounts) in
        let debit = record (entry_of journal from (dec.numeric (negate x)) c ref_type ref_id) {
          id = t.next_entry;
          created_at = now;
        } in
        let credit = record (entry_of journal to (dec.numeric x) c ref_type ref_id) {
          id = suc t.next_entry;
          created_at = now;
        } in
        record {
          keyed = set_balance-IsKeyed to q b.balance_hold rows keyed;
          sound =
              set_balance-IsSound to q b.balance_hold rows fb keyed
                (set_balance-IsSound from p a.balance_hold t.accounts fa v.keyed v.sound);
          balanced = journal_balanced t.ledger_entries debit credit v.balanced (stored_pair x s);
          reconciled =
              post_one (t.ledger_entries ++ debit ∷ []) credit b q b.balance_hold rows kept fb
                (credited b.balance_available b.balance_hold x s) keyed
                (post_one t.ledger_entries debit a p a.balance_hold t.accounts found fa
                  (debited a.balance_available a.balance_hold x s) v.keyed v.reconciled);
        }

    -- A top-up, with its account found.
    top_up_rows-IsValid :
        (journal now : ℕ) (a : Account D)
        → account_by_id a.id t.accounts ≡ some a
        → IsValid (
            rebalance
              (post t now
                (entry_of journal a.id x usd "TOPUP" journal)
                (entry_of journal uuid_nil (negate x) usd "TOPUP" journal))
              a.id
              (a.balance_available ⊕ x)
              a.balance_hold)
    top_up_rows-IsValid journal now a found =
        let q = a.balance_available ⊕ x in
        let fa = given-IsFunded a x (All-found IsSound a.id t.accounts v.sound found) s pos in
        let rows = set_balance a.id q a.balance_hold t.accounts in
        let credit = record (entry_of journal a.id (dec.numeric x) usd "TOPUP" journal) {
          id = t.next_entry;
          created_at = now;
        } in
        let debit =
          record (entry_of journal uuid_nil (dec.numeric (negate x)) usd "TOPUP" journal) {
            id = suc t.next_entry;
            created_at = now;
          } in
        let es = t.ledger_entries ++ credit ∷ [] in
        record {
          keyed = set_balance-IsKeyed a.id q a.balance_hold t.accounts v.keyed;
          sound = set_balance-IsSound a.id q a.balance_hold t.accounts fa v.keyed v.sound;
          balanced =
              journal_balanced t.ledger_entries credit debit v.balanced
                (laws.add_comm _ _ ∙ stored_pair x s);
          reconciled =
              All-map (Reconciles es) (Reconciles (es ++ debit ∷ [])) rows
                (λ b r m. append-Reconciles es debit b m r m)
                (post_one t.ledger_entries credit a q a.balance_hold t.accounts found fa
                  (credited a.balance_available a.balance_hold x s) v.keyed v.reconciled);
        }

  -- A transfer between two accounts keeps the invariant.
  pub moved-IsValid :
      (journal now from to : ℕ) (x : D) (c : Currency) (ref_type : String) (ref_id : ℕ)
      (t t' : Tables D)
      → IsValid t
      → IsStorable x
      → from ≢ to
      → moved journal now from to x c ref_type ref_id t ≡ some t'
      → IsValid t'
  moved-IsValid journal now from to x c ref_type ref_id t t' v s ne h =
      let (a, found, rest) = with_account-some (account_by_id from t.accounts) _ h in
      let (b, found', rest') = with_account-some (account_by_id to t.accounts) _ rest in
      let (cov, e) = if-some (covered x a.balance_available) rest' in
      let (pos, enough) = covered_lem x a.balance_available cov in
      subst IsValid e (
        transfer_rows-IsValid t v x s pos journal now from to c ref_type ref_id a b ne found found'
          enough)

  -- A top-up keeps the invariant.
  pub topped_up-IsValid :
      (journal now user : ℕ) (x : D) (t t' : Tables D)
      → IsValid t
      → IsStorable x
      → topped_up journal now user x t ≡ some t'
      → IsValid t'
  topped_up-IsValid journal now user x t t' v s h =
      let (a, owned, rest) = with_account-some (account_of user usd t.accounts) _ h in
      let (equity, exists, rest') = with_account-some (account_by_id uuid_nil t.accounts) _ rest in
      let (test, e) = if-some (less_than nought x) rest' in
      let pos : nought ≺ x = ground arith in
      subst IsValid e (
        top_up_rows-IsValid t v x s pos journal now a
          (by_id_of_owner user usd t.accounts v.keyed owned))
