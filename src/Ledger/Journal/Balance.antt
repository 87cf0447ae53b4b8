-- ===== src/Ledger/Journal/Balance.antt =====
-- What `CreateJournal` accepts and writes, and what `ValidateJournalBalance` says of it later.
use micro_coin.Base.{
  ℕ, suc, ◌≡◌, ◌≢◌, refl, sym, List, [], ◌∷◌, ◌++◌, map, append-nil, append_assoc, arith, All, true,
  false, ◌==◌,
}
use micro_coin.Decimal.{Decimal, IsDecimal, nought, ◌⊕◌, IsStorable}
use micro_coin.Decimal.Laws.{add_assoc, add-nought, group_laws}
use micro_coin.Models.{LedgerEntry}
use micro_coin.Database.Tables.{Tables, insert_entry, apply_all, apply}
use micro_coin.Database.World.{World, Tx, ok, commit}
use micro_coin.Ledger.Journal.{
  add_amounts, insert_entries, create_journal, sum_of_journal, validate_journal_balance,
}

module _ {D : Type 0} ⦃dec : Decimal D⦄ ⦃laws : IsDecimal D⦄ where
  insert_entries-appends :
      (tx tx' : Tx D) (es : List (LedgerEntry D)) (w : World D)
      → (insert_entries tx es w).0 ≡ ok tx'
      → tx' ≡ record tx { statements = tx.statements ++ map insert_entry es }
  unfolding insert_entries
  insert_entries-appends tx tx' [] w h = ground (arith, append-nil tx.statements)
  insert_entries-appends tx tx' (e ∷ es) w h =
      let grown = record tx { statements = tx.statements ++ insert_entry e ∷ [] } in
      ground (
        arith,
        insert_entries-appends grown tx' es (record w { calls = suc w.calls }),
        append_assoc tx.statements (insert_entry e ∷ []) (map insert_entry es),
      )

  -- A journal that `CreateJournal` accepts has at least one entry, its amounts sum to zero, and the
  -- transaction has gained exactly one insertion for each entry, in order.
  pub create_journal_accepts :
      (tx tx' : Tx D) (es : List (LedgerEntry D)) (w : World D)
      → (create_journal tx es w).0 ≡ ok tx'
      → (es ≢ [])
        × (add_amounts nought es ≡ nought)
        × (tx' ≡ record tx { statements = tx.statements ++ map insert_entry es })
  unfolding create_journal
  create_journal_accepts tx tx' es w h =
      ground
        (arith, insert_entries-appends tx tx' es w, (laws.cmp-eq (add_amounts nought es) nought).0)

  -- The loop adds from the left.
  add_amounts_lem :
      (acc : D) (es : List (LedgerEntry D)) → add_amounts acc es ≡ acc ⊕ add_amounts nought es
  unfolding add_amounts
  add_amounts_lem acc [] = sym (add-nought acc)
  add_amounts_lem acc (e ∷ es) =
      rw (add_amounts_lem (acc ⊕ e.amount) es, add_amounts_lem (nought ⊕ e.amount) es)
        (simp group_laws)

  sum_of_journal-append :
      (j : ℕ) (es : List (LedgerEntry D)) (e : LedgerEntry D)
      → e.journal_id ≡ j
      → sum_of_journal j (es ++ e ∷ []) ≡ sum_of_journal j es ⊕ e.amount
  unfolding sum_of_journal
  sum_of_journal-append j [] e h =
      let test : (e.journal_id == j) ≡ true = ground arith in rw test (simp group_laws)
  sum_of_journal-append j (d ∷ es) e h =
      ground
        (arith, sum_of_journal-append j es e h, add_assoc d.amount (sum_of_journal j es) e.amount)

  abbrev BelongsTo : ℕ → LedgerEntry D → Type 0
  BelongsTo j e = (e.journal_id ≡ j) × IsStorable e.amount

  -- The rows that a journal's statements write add its amounts to its sum.
  sum_of_journal-inserted :
      (j now : ℕ) (es : List (LedgerEntry D)) (t : Tables D)
      → All (BelongsTo j) es
      → sum_of_journal j (apply_all now t (map insert_entry es)).ledger_entries
        ≡ sum_of_journal j t.ledger_entries ⊕ add_amounts nought es
  unfolding add_amounts
  sum_of_journal-inserted j now [] t h = sym (add-nought _)
  sum_of_journal-inserted j now (e ∷ es) t h =
      let row = record e { id = t.next_entry; amount = dec.numeric e.amount; created_at = now } in
      rw
        (
          sum_of_journal-inserted j now es (apply now t (insert_entry e)) h.1,
          sum_of_journal-append j t.ledger_entries row h.0.0,
          h.0.1,
          add_amounts_lem (nought ⊕ e.amount) es,
        )
        (simp group_laws)

  -- Once a journal that `CreateJournal` accepted in a new transaction is committed, a validation of
  -- it never says that it does not balance. Its entries carry its id and amounts of at most ten
  -- decimal places, and the rows of that id in the table before sum to zero.
  pub validate_journal_balance-create_journal :
      (j : ℕ) (tx tx' : Tx D) (es : List (LedgerEntry D)) (w w' : World D)
      → tx.statements ≡ []
      → All (BelongsTo j) es
      → (create_journal tx es w).0 ≡ ok tx'
      → sum_of_journal j w'.tables.ledger_entries ≡ nought
      → (commit tx' w').0 ≡ ok tt
      → (validate_journal_balance j (commit tx' w').1).0 ≢ ok false
  unfolding validate_journal_balance
  validate_journal_balance-create_journal j tx tx' es w w' new own made before done =
      let (nonempty, zero_sum, e) = create_journal_accepts tx tx' es w made in
      let same : tx'.statements ≡ map insert_entry es = rw (e, new) refl in
      let sum : sum_of_journal j (apply_all tx'.started w'.tables tx'.statements).ledger_entries
          ≡ nought =
        rw (same, sum_of_journal-inserted j tx'.started es w'.tables own, before, zero_sum)
          (add-nought nought) in
      ground (
        arith,
        sum,
        (laws.cmp-eq
            (sum_of_journal j (apply_all tx'.started w'.tables tx'.statements).ledger_entries)
            nought).1,
      )
