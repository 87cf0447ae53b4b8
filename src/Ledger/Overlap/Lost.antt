-- ===== src/Ledger/Overlap/Lost.antt =====
-- A top-up that is committed between the read and the write of a hold.
use micro_coin.Base.{
  ℕ, suc, ◌≡◌, ◌≢◌, refl, sym, ◌∙◌, false, List, [], ◌∷◌, ◌++◌, some, arith, ==_refl,
}
use micro_coin.Decimal.{Decimal, IsDecimal, IsStorable, nought, ◌⊕◌, ◌⊖◌, ◌≺◌, less_than}
use micro_coin.Models.{Account, usd, uuid_nil}
use micro_coin.Database.Tables.{Tables, update_balance, account_by_id, account_of, with_balance}
use micro_coin.Database.World.{World, Tx, ok}
use micro_coin.Database.Accounts.{get_account_by_user_id_and_currency, update_account_balance}
use micro_coin.Ledger.Service.{top_up_user}
use micro_coin.Ledger.Journal.{create_journal}
use micro_coin.Ledger.Spec.{rebalance, topped_up, Refines-done}
use micro_coin.Ledger.Spec.Invariant.{IsValid, IsSound, Reconciles, posted}
use micro_coin.Ledger.Spec.Preserved.{with_account-some, if-some}
use micro_coin.Ledger.Spec.Posted.{topped_up-IsValid}
use micro_coin.Ledger.Service.TopUp.{top_up_user-Refines, top_up_user-succeeds}
use micro_coin.Ledger.Overlap.Fits.{total_of}
use micro_coin.Ledger.Overlap.Alone.{advance_by-operation}
use micro_coin.Database.Rows.{by_id_of_owner, id_of_found, All-found, account_by_id-set_balance}
use micro_coin.Decimal.Laws.{group_laws, move_total, sub-IsStorable}
use micro_coin.Ledger.Overlap.{
  Call, hold, top_up, waiting, begun, fetched, written, ended, advance, advance_by, step,
  interleave,
}

-- Two steps of a call, five of another, and two more of the first.
abbrev pub around : List ℕ
around = 0 ∷ 0 ∷ 1 ∷ 1 ∷ 1 ∷ 1 ∷ 1 ∷ 0 ∷ 0 ∷ []

module _ {D : Type 0} ⦃dec : Decimal D⦄ ⦃laws : IsDecimal D⦄ where
  abbrev tick : World D → World D
  tick w = record w { calls = suc w.calls }

  top_up_keeps_fails : (user : ℕ) (x : D) (w : World D) → (top_up_user user x w).1.fails ≡ w.fails
  unfolding top_up_user create_journal get_account_by_user_id_and_currency update_account_balance
  top_up_keeps_fails user x w = ground arith

  hold_begins :
      (user : ℕ) (y : D) (w : World D)
      → nought ≺ y
      → w.fails w.calls ≡ false
      → advance (hold user usd y) waiting w
        ≡ (begun (record { started = w.clock (suc w.calls); statements = [] }), tick w)
  unfolding advance
  hold_begins user y w pos up = ground (arith, laws.cmp_swap y nought, laws.cmp-eq y nought)

  hold_reads :
      (user : ℕ) (y : D) (tx : Tx D) (a : Account D) (w : World D)
      → account_of user usd w.tables.accounts ≡ some a
      → w.fails w.calls ≡ false
      → advance (hold user usd y) (begun tx) w ≡ (fetched tx a, tick w)
  unfolding advance get_account_by_user_id_and_currency
  hold_reads user y tx a w found up = ground arith

  hold_writes :
      (user : ℕ) (y : D) (tx : Tx D) (a : Account D) (w : World D)
      → less_than a.balance_available y ≡ false
      → w.fails w.calls ≡ false
      → advance (hold user usd y) (fetched tx a) w ≡ (
        written (record tx {
          statements =
              tx.statements
              ++ update_balance a.id (a.balance_available ⊖ y) (a.balance_hold ⊕ y) ∷ [];
        }),
        tick w,
      )
  unfolding advance update_account_balance
  hold_writes user y tx a w enough up = ground arith

  hold_commits :
      (user : ℕ) (y : D) (tx : Tx D) (id : ℕ) (p q : D) (w : World D)
      → tx.statements ≡ update_balance id p q ∷ []
      → w.fails w.calls ≡ false
      → advance (hold user usd y) (written tx) w
        ≡ (ended (ok tt), record (tick w) { tables = rebalance w.tables id p q })
  unfolding advance
  hold_commits user y tx id p q w shape up = ground arith

  -- In valid tables, what was posted to an account is what it has.
  posted_to :
      (t : Tables D) (a : Account D) (id : ℕ)
      → IsValid t
      → id ≢ uuid_nil
      → account_by_id id t.accounts ≡ some a
      → posted id t.ledger_entries ≡ a.balance_available ⊕ a.balance_hold
  posted_to t a id v n found =
      let own = id_of_found id {a = a} t.accounts found in
      let r = All-found (Reconciles t.ledger_entries) id t.accounts v.reconciled found in
      rw own at (sym (r (λ e. n (sym own ∙ e))))

  credited :
      (journal now user : ℕ) (x : D) (t t' : Tables D) (a : Account D)
      → IsValid t
      → account_of user usd t.accounts ≡ some a
      → topped_up journal now user x t ≡ some t'
      → account_by_id a.id t'.accounts
        ≡ some (with_balance (a.balance_available ⊕ x) a.balance_hold a)
  credited journal now user x t t' a v owned h =
      let (b, owned', rest) = with_account-some (account_of user usd t.accounts) _ h in
      let (equity, exists, rest') = with_account-some (account_by_id uuid_nil t.accounts) _ rest in
      let (test, e) = if-some (less_than nought x) rest' in
      let same : b ≡ a = cc (owned, owned') in
      let found = by_id_of_owner user usd t.accounts v.keyed owned in
      rw (← e, same, account_by_id-set_balance a.id a.id, ==_refl a.id, found) refl

  -- A hold's write over an account that has changed since it was read.
  overwritten :
      (t : Tables D) (a b : Account D) (y : D)
      → account_by_id a.id t.accounts ≡ some b
      → IsSound a
      → IsStorable y
      → total_of a.id (rebalance t a.id (a.balance_available ⊖ y) (a.balance_hold ⊕ y))
        ≡ some (a.balance_available ⊕ a.balance_hold)
  overwritten t a b y found sound st =
      rw
        (
          account_by_id-set_balance a.id a.id,
          ==_refl a.id,
          found,
          sub-IsStorable a.balance_available y sound.available_storable st,
          laws.numeric-add a.balance_hold y sound.hold_storable st,
          move_total a.balance_available a.balance_hold y,
        )
        refl

  interleave-around :
      (c c' : Call D) (w : World D)
      → interleave around ((c, waiting) ∷ (c', waiting) ∷ []) w ≡ (
          let (s, w₁) = advance_by 2 c waiting w in
          let (s', w₂) = advance_by 5 c' waiting w₁ in
          let (s'', w₃) = advance_by 2 c s w₂ in ((c, s'') ∷ (c', s') ∷ [], w₃))
  unfolding interleave step advance_by
  interleave-around c c' w = refl

  hold_read :
      (user : ℕ) (y : D) (a : Account D) (w : World D)
      → nought ≺ y
      → account_of user usd w.tables.accounts ≡ some a
      → ((n : ℕ) → w.fails n ≡ false)
      → advance_by 2 (hold user usd y) waiting w
        ≡ (fetched (record { started = w.clock (suc w.calls); statements = [] }) a, tick (tick w))
  unfolding advance_by
  hold_read user y a w pos owned up =
      let tx : Tx D = record { started = w.clock (suc w.calls); statements = [] } in
      rw
        (
          advance_by,
          hold_begins user y w pos (up w.calls),
          hold_reads user y tx a (tick w) owned (up (suc w.calls)),
        )
        refl

  hold_done :
      (user : ℕ) (y : D) (now : ℕ) (a : Account D) (w : World D)
      → less_than a.balance_available y ≡ false
      → ((n : ℕ) → w.fails n ≡ false)
      → advance_by 2 (hold user usd y) (fetched (record { started = now; statements = [] }) a) w ≡ (
        ended (ok tt),
        record (tick (tick w)) {
          tables = rebalance w.tables a.id (a.balance_available ⊖ y) (a.balance_hold ⊕ y);
        },
      )
  unfolding advance_by
  hold_done user y now a w enough up =
      let tx : Tx D = record { started = now; statements = [] } in
      let tx' : Tx D = record tx {
        statements = update_balance a.id (a.balance_available ⊖ y) (a.balance_hold ⊕ y) ∷ [];
      } in
      rw
        (
          advance_by,
          hold_writes user y tx a w enough (up w.calls),
          hold_commits user y tx' a.id (a.balance_available ⊖ y) (a.balance_hold ⊕ y) (tick w) refl
              (up (suc w.calls)),
        )
        refl

  grown :
      (available held x before after : D)
      → IsStorable available
      → IsStorable held
      → IsStorable x
      → before ≡ available ⊕ held
      → after ≡ dec.numeric (available ⊕ x) ⊕ dec.numeric held
      → after ≡ before ⊕ x
  grown available held x before after sa sh sx e e' =
      rw (e, e', laws.numeric-add available x sa sx, sh) (simp group_laws)

  -- A user's hold reads the dollar account, then a top-up of the same user runs as a whole, and then
  -- the hold writes and commits. From valid tables, for amounts that fit their columns, where every
  -- call of the driver succeeds and the account `uuid.Nil` of the top-up's journal exists: both calls
  -- succeed and the ledger has posted the top-up to the account, but the account has, available and
  -- held together, what it had before it.
  pub top_up-during-hold :
      (user : ℕ) (x y : D) (a equity : Account D) (w : World D)
      → ((n : ℕ) → w.fails n ≡ false)
      → IsValid w.tables
      → account_of user usd w.tables.accounts ≡ some a
      → account_by_id uuid_nil w.tables.accounts ≡ some equity
      → a.id ≢ uuid_nil
      → nought ≺ x
      → nought ≺ y
      → less_than a.balance_available y ≡ false
      → IsStorable x
      → IsStorable y
      → (let h = hold user usd y in
          let t = top_up user x in
          let (ps, w') = interleave around ((h, waiting) ∷ (t, waiting) ∷ []) w in
          (ps ≡ (h, ended (ok tt)) ∷ (t, ended (ok tt)) ∷ [])
          × (posted a.id w'.tables.ledger_entries ≡ posted a.id w.tables.ledger_entries ⊕ x)
          × (total_of a.id w'.tables ≡ total_of a.id w.tables))
  top_up-during-hold user x y a equity w up v owned exists other pos pos' enough st st' =
      let w₁ = tick (tick w) in
      let w₂ = (top_up_user user x w₁).1 in
      let found = by_id_of_owner user usd w.tables.accounts v.keyed owned in
      let done = top_up_user-succeeds user x w₁ a equity up v.keyed owned exists pos in
      let spec = topped_up (w₁.fresh w₁.ids) (w₁.clock (suc w₁.calls)) user x w₁.tables in
      let effect : spec ≡ some w₂.tables =
        Refines-done spec w₁ (top_up_user user x w₁) (top_up_user-Refines user x w₁) done in
      let credit =
        credited (w₁.fresh w₁.ids) (w₁.clock (suc w₁.calls)) user x w₁.tables w₂.tables a v owned
          effect in
      let v₂ =
        topped_up-IsValid (w₁.fresh w₁.ids) (w₁.clock (suc w₁.calls)) user x w₁.tables w₂.tables v
          st effect in
      let sound = All-found IsSound a.id w.tables.accounts v.sound found in
      let before = posted_to w.tables a a.id v other found in
      let after =
        posted_to w₂.tables (with_balance (a.balance_available ⊕ x) a.balance_hold a) a.id v₂ other
          credit in
      rw
        (
          interleave-around,
          hold_read user y a w pos' owned up,
          advance_by-operation (top_up user x) w₁,
          done,
          hold_done user y (w.clock (suc w.calls)) a w₂ enough
              (λ n. rw (top_up_keeps_fails user x w₁) (up n)),
        )
        (
          refl,
          grown a.balance_available a.balance_hold x _ _ sound.available_storable
              sound.hold_storable st before after,
          overwritten w₂.tables a (with_balance (a.balance_available ⊕ x) a.balance_hold a) y credit
                sound st'
              ∙ rw found refl,
        )
