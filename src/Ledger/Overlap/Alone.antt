-- ===== src/Ledger/Overlap/Alone.antt =====
-- A call whose steps nothing interrupts.
use micro_coin.Base.{ℕ, zero, suc, ◌≡◌, refl, sym, ap, ◌∙◌}
use micro_coin.Decimal.{Decimal, nought, ◌⊕◌, ◌⊖◌, less_than, less_than_or_equal}
use micro_coin.Models.{Currency, Account, usd}
use micro_coin.Database.World.{
  World, Action, Result, Tx, ok, err, message, ◌>>=◌, ◌>>◌, fail_if, wrapped, begin, commit,
  new_uuid, pure,
}
use micro_coin.Database.Accounts.{get_account_by_user_id_and_currency, update_account_balance}
use micro_coin.Ledger.Service.{hold_funds, release_hold, top_up_user, top_up_entries}
use micro_coin.Ledger.Journal.{create_journal}
use micro_coin.Ledger.Overlap.{
  Call, Stage, hold, release, top_up, waiting, begun, fetched, posted, written, ended, advance,
  advance_by, then_stage,
}

module _ {D : Type 0} where
  abbrev pub finish : Result (Unit {0}) × World D → Stage D × World D
  finish (r, w) = (ended r, w)

  bind_assoc :
      {A B C : Type 0} (m : Action D A) (f : A → Action D B) (g : B → Action D C) (w : World D)
      → ((m >>= f) >>= g) w ≡ (m >>= λ a. f a >>= g) w
  bind_assoc {A} {B} {C} m f g w = go (m w).0 (m w).1
    where
      go :
          (r : Result A) (w' : World D)
          → (let (r', w'') = elim r as (λ _. Result B × World D) [
            | ok a ↦ f a w'
            | err e ↦ (err e, w')
          ] in
              elim r' as (λ _. Result C × World D) [ ok b ↦ g b w'' | err e ↦ (err e, w'') ])
            ≡ elim r as (λ _. Result C × World D) [ ok a ↦ (f a >>= g) w' | err e ↦ (err e, w') ]
      go (ok a) w' = refl
      go (err e) w' = refl

module _ {D : Type 0} ⦃dec : Decimal D⦄ where
  ended_idle :
      (n : ℕ) (c : Call D) (r : Result (Unit {0})) (w : World D)
      → advance_by n c (ended r) w ≡ (ended r, w)
  unfolding advance_by advance
  ended_idle zero c r w = refl
  ended_idle (suc n) (hold user cur x) r w = ended_idle n (hold user cur x) r w
  ended_idle (suc n) (release user cur x) r w = ended_idle n (release user cur x) r w
  ended_idle (suc n) (top_up user x) r w = ended_idle n (top_up user x) r w

  -- The first of several steps is the first action of what they do together.
  one_step :
      {A : Type 0} (n : ℕ) (c : Call D) (s : Stage D) (m : Action D A) (f : A → Stage D)
      (k : A → Action D (Unit {0}))
      → ((w : World D) → advance c s w ≡ then_stage m f w)
      → ((a : A) (w : World D) → advance_by n c (f a) w ≡ finish (k a w))
      → (w : World D) → advance_by (suc n) c s w ≡ finish ((m >>= k) w)
  unfolding advance_by
  one_step {A} n c s m f k here rest w = rw (advance_by, here w) (go (m w).0 (m w).1)
    where
      go :
          (r : Result A) (w' : World D)
          → advance_by n c (elim r as (λ _. Stage D) [ ok a ↦ f a | err e ↦ ended (err e) ]) w'
            ≡ finish (elim r as (λ _. Result (Unit {0}) × World D) [
              | ok a ↦ k a w'
              | err e ↦ (err e, w')
            ])
      go (ok a) w' = rest a w'
      go (err e) w' = ended_idle n c (err e) w'

  last_step :
      (n : ℕ) (c : Call D) (tx : Tx D)
      → ((w : World D)
          → advance c (written tx) w
            ≡ then_stage (wrapped "failed to commit transaction" (commit tx)) (λ u. ended (ok u)) w)
      → (w : World D)
      → advance_by (suc n) c (written tx) w
        ≡ finish (wrapped "failed to commit transaction" (commit tx) w)
  unfolding advance_by
  last_step n c tx here w = rw (advance_by, here w) (go (m w).0 (m w).1)
    where
      m : Action D (Unit {0})
      m = wrapped "failed to commit transaction" (commit tx)

      go :
          (r : Result (Unit {0})) (w' : World D)
          → advance_by n c
              (elim r as (λ _. Stage D) [ ok a ↦ ended (ok a) | err e ↦ ended (err e) ])
              w'
            ≡ finish (r, w')
      go (ok a) w' = ended_idle n c (ok a) w'
      go (err e) w' = ended_idle n c (err e) w'

  abbrev commit_it : Tx D → Action D (Unit {0})
  commit_it tx = wrapped "failed to commit transaction" (commit tx)

  -- A call that checks and writes one account, with one step to spare.
  four_steps :
      (c : Call D) (open_ : Action D (Tx D)) (get : Action D (Account D))
      (check : Account D → Action D (Unit {0})) (update : Tx D → Account D → Action D (Tx D))
      → ((w : World D) → advance c waiting w ≡ then_stage open_ begun w)
      → ((tx : Tx D) (w : World D) → advance c (begun tx) w ≡ then_stage get (fetched tx) w)
      → ((tx : Tx D) (a : Account D) (w : World D)
          → advance c (fetched tx a) w ≡ then_stage (check a >> update tx a) written w)
      → ((tx : Tx D) (w : World D)
          → advance c (written tx) w ≡ then_stage (commit_it tx) (λ u. ended (ok u)) w)
      → (w : World D)
      → advance_by 5 c waiting w
        ≡ finish
            ((open_ >>= λ tx. get >>= λ a. check a >>= λ _. update tx a >>= λ tx'. commit_it tx') w)
  four_steps c open_ get check update e₁ e₂ e₃ e₄ =
      let third =
        λ (tx : Tx D) (a : Account D). check a >>= λ _. update tx a >>= λ tx'. commit_it tx' in
      let second = λ (tx : Tx D). get >>= third tx in
      one_step 4 c waiting open_ begun second e₁ λ tx.
        one_step 3 c (begun tx) get (fetched tx) (third tx) (e₂ tx) λ a w.
          one_step 2 c (fetched tx a) (check a >> update tx a) written commit_it (e₃ tx a)
            (λ tx'. last_step 1 c tx' (e₄ tx')) w
          ∙ ap finish (bind_assoc (check a) (λ _. update tx a) commit_it w)

  abbrev pub open_tx : D → Action D (Tx D)
  open_tx x =
      fail_if (less_than_or_equal x nought) (message "amount must be positive")
      >> wrapped "failed to begin transaction" begin

  opened :
      (x : D) (k : Tx D → Action D (Unit {0})) (w : World D)
      → (open_tx x >>= k) w
        ≡ (fail_if (less_than_or_equal x nought) (message "amount must be positive") >>= λ _.
              wrapped "failed to begin transaction" begin >>= k)
            w
  opened x k w =
      bind_assoc (fail_if (less_than_or_equal x nought) (message "amount must be positive"))
        (λ _. wrapped "failed to begin transaction" begin) k w

  hold_alone :
      (user : ℕ) (c : Currency) (x : D) (w : World D)
      → advance_by 5 (hold user c x) waiting w ≡ finish (hold_funds user c x w)
  unfolding advance hold_funds
  hold_alone user c x w =
      let get =
        wrapped "failed to get account" (get_account_by_user_id_and_currency {D = D} user c) in
      let check = λ (a : Account D).
        fail_if {D = D} (less_than a.balance_available x) (message "insufficient funds") in
      let update = λ (tx : Tx D) (a : Account D).
        wrapped "failed to update account balance"
          (update_account_balance tx a.id (a.balance_available ⊖ x) (a.balance_hold ⊕ x)) in
      four_steps (hold user c x) (open_tx x) get check update (λ w. refl) (λ tx w. refl)
        (λ tx a w. refl) (λ tx w. refl) w
      ∙ ap finish
          (opened x (λ tx. get >>= λ a. check a >>= λ _. update tx a >>= λ tx'. commit_it tx') w)

  release_alone :
      (user : ℕ) (c : Currency) (x : D) (w : World D)
      → advance_by 5 (release user c x) waiting w ≡ finish (release_hold user c x w)
  unfolding advance release_hold
  release_alone user c x w =
      let get =
        wrapped "failed to get account" (get_account_by_user_id_and_currency {D = D} user c) in
      let check = λ (a : Account D).
        fail_if {D = D} (less_than a.balance_hold x) (message "insufficient held funds") in
      let update = λ (tx : Tx D) (a : Account D).
        wrapped "failed to update account balance"
          (update_account_balance tx a.id (a.balance_available ⊕ x) (a.balance_hold ⊖ x)) in
      four_steps (release user c x) (open_tx x) get check update (λ w. refl) (λ tx w. refl)
        (λ tx a w. refl) (λ tx w. refl) w
      ∙ ap finish
          (opened x (λ tx. get >>= λ a. check a >>= λ _. update tx a >>= λ tx'. commit_it tx') w)

  -- Whether a call succeeded.
  abbrev forget : {A : Type 0} → Result A × World D → Result (Unit {0}) × World D
  forget (r, w) = (elim r [ ok a ↦ ok tt | err e ↦ err e ], w)

  forget_bind :
      {A B : Type 0} (m : Action D A) (f : A → Action D B) (g : A → Action D (Unit {0}))
      → ((a : A) (w : World D) → forget (f a w) ≡ g a w)
      → (w : World D) → forget ((m >>= f) w) ≡ (m >>= g) w
  forget_bind {A} {B} m f g e w = go (m w).0 (m w).1
    where
      go :
          (r : Result A) (w' : World D)
          → forget (elim r as (λ _. Result B × World D) [ ok a ↦ f a w' | err e ↦ (err e, w') ])
            ≡ elim r as (λ _. Result (Unit {0}) × World D) [ ok a ↦ g a w' | err e ↦ (err e, w') ]
      go (ok a) w' = e a w'
      go (err x) w' = refl

  forget_last :
      {A : Type 0} (m : Action D (Unit {0})) (a : A) (w : World D) → forget ((m >> pure a) w) ≡ m w
  forget_last {A} m a w = go (m w).0 (m w).1
    where
      go :
          (r : Result (Unit {0})) (w' : World D)
          → forget (elim r as (λ _. Result A × World D) [ ok u ↦ (ok a, w') | err e ↦ (err e, w') ])
            ≡ (r, w')
      go (ok u) w' = refl
      go (err e) w' = refl

  top_up_alone :
      (user : ℕ) (x : D) (w : World D)
      → advance_by 5 (top_up user x) waiting w ≡ finish (forget (top_up_user user x w))
  unfolding advance top_up_user
  top_up_alone user x w =
      let c = top_up user x in
      let get =
        wrapped "failed to get USD account"
          (get_account_by_user_id_and_currency {D = D} user usd) in
      let journal = λ (tx : Tx D) (a : Account D) (id : ℕ).
        wrapped "failed to create journal" (create_journal tx (top_up_entries id a.id x)) in
      let update = λ (a : Account D) (tx : Tx D).
        wrapped "failed to update account balance"
          (update_account_balance tx a.id (a.balance_available ⊕ x) a.balance_hold) in
      let fourth = λ (a : Account D) (tx : Tx D). update a tx >>= commit_it in
      let third =
        λ (tx : Tx D) (a : Account D). new_uuid {D = D} >>= λ id. journal tx a id >>= fourth a in
      let second = λ (tx : Tx D). get >>= third tx in
      one_step 4 c waiting (open_tx x) begun second (λ w. refl)
        (λ tx.
          one_step 3 c (begun tx) get (fetched tx) (third tx) (λ w. refl)
            λ a w.
              one_step 2 c (fetched tx a) (new_uuid >>= journal tx a) (λ tx'. posted tx' a)
                (fourth a) (λ w. refl)
                (λ tx'.
                  one_step 1 c (posted tx' a) (update a tx') written commit_it (λ w. refl)
                    λ tx''. last_step 0 c tx'' λ w. refl)
                w
              ∙ ap finish (bind_assoc new_uuid (journal tx a) (fourth a) w))
        w
      ∙ ap finish (
          opened x second w
          ∙ sym (
              forget_bind
                (fail_if (less_than_or_equal x nought) (message "amount must be positive")) _ _
                (λ _. forget_bind (wrapped "failed to begin transaction" begin) _ second λ tx.
                  forget_bind get _ (third tx) λ a. forget_bind new_uuid _ _ λ id.
                    forget_bind (journal tx a id) _ (fourth a) λ tx'.
                      forget_bind (update a tx') _ commit_it λ tx''.
                        forget_last (commit_it tx'')
                          (record a { balance_available = a.balance_available ⊕ x }))
                w))

  -- The operation of the service that a call carries out.
  abbrev pub operation : Call D → Action D (Unit {0})
  operation (hold user c x) w = hold_funds user c x w
  operation (release user c x) w = release_hold user c x w
  operation (top_up user x) w = forget (top_up_user user x w)

  -- The steps of a call that nothing interrupts do what the operation does, error or not.
  pub advance_by-operation :
      (c : Call D) (w : World D) → advance_by 5 c waiting w ≡ finish (operation c w)
  advance_by-operation (hold user c x) w = hold_alone user c x w
  advance_by-operation (release user c x) w = release_alone user c x w
  advance_by-operation (top_up user x) w = top_up_alone user x w
