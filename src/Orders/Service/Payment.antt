-- ===== src/Orders/Service/Payment.antt =====
-- The payment of a trade.
use micro_coin.Base.{ℕ, List, [], ◌∷◌, ◌≡◌, ◌≢◌, refl, sym, some, arith, String, if_split}
use micro_coin.Decimal.{Decimal, IsDecimal, IsStorable, ◌⊗◌}
use micro_coin.Models.{Account, Currency, Trade, usd, btc, eth, is_buy, is_btc_usd}
use micro_coin.Database.Tables.{Tables, account_of}
use micro_coin.Database.Rows.{IsKeyed, by_id_of_owner}
use micro_coin.Database.World.{
  World, Action, Result, Tx, ok, err, ◌>>=◌, ◌>>◌, wrapped, begin, commit,
}
use micro_coin.Database.Accounts.{get_account_by_user_id_and_currency}
use micro_coin.Ledger.Spec.Invariant.{IsValid}
use micro_coin.Ledger.Session.{perform, perform-IsValid, transfer}
use micro_coin.Orders.Service.{
  process_trade, transfer_base, transfer_usd, base_currency, pay, taker_base_error,
  maker_base_error,
}

module _ {D : Type 0} ⦃dec : Decimal D⦄ ⦃laws : IsDecimal D⦄ where
  owner_of_found :
      (user : ℕ) (c : Currency) {a : Account D} (rs : List (Account D))
      → account_of user c rs ≡ some a
      → a.user_id ≡ user
  owner_of_found user c [] h = cc
  owner_of_found user c {a} (b ∷ rs) h = ground (arith, owner_of_found user c {a = a} rs)

  -- Two users have no account in common.
  distinct_accounts :
      (user user' : ℕ) (c : Currency) {a b : Account D} (rs : List (Account D))
      → IsKeyed rs
      → account_of user c rs ≡ some a
      → account_of user' c rs ≡ some b
      → user ≢ user'
      → a.id ≢ b.id
  distinct_accounts user user' c {a} {b} rs k h h' n e =
      let found = by_id_of_owner user c {a = a} rs k h in
      let found' = by_id_of_owner user' c {a = b} rs k h' in
      let same : a ≡ b = ground arith in
      n (ground (arith, owner_of_found user c {a = a} rs h, owner_of_found user' c {a = b} rs h'))

  -- A run is valid if its first action leaves valid tables and what follows its result does too.
  pub after :
      {A B : Type 0} (m : Action D A) (f : A → Action D B) (w : World D)
      → IsValid (m w).1.tables
      → ((a : A) → (m w).0 ≡ ok a → IsValid (f a (m w).1).1.tables)
      → IsValid ((m >>= f) w).1.tables
  after {A} {B} m f w v next = go (m w).0 (m w).1 v next
    where
      go :
          (r : Result A) (w' : World D)
          → IsValid w'.tables
          → ((a : A) → r ≡ ok a → IsValid (f a w').1.tables)
          → IsValid
              (elim r as (λ _. Result B × World D) [ ok a ↦ f a w' | err e ↦ (err e, w') ]).1.tables
      go (ok a) w' v next = next a refl
      go (err e) w' v next = v

  after_begin :
      {B : Type 0} (s : String) (f : Tx D → Action D B) (w : World D)
      → IsValid w.tables
      → ((tx : Tx D) (w' : World D)
          → tx.statements ≡ []
          → w'.tables ≡ w.tables
          → IsValid (f tx w').1.tables)
      → IsValid ((wrapped s begin >>= f) w).1.tables
  after_begin s f w v next =
      let same : (wrapped s begin w).1.tables ≡ w.tables = ground arith in
      after (wrapped s begin) f w (rw same v)
        λ tx e. next tx (wrapped s begin w).1 (ground arith) same

  after_fetch :
      {B : Type 0} (s : String) (user : ℕ) (c : Currency) (f : Account D → Action D B)
      (t : Tables D) (w : World D)
      → IsValid t
      → w.tables ≡ t
      → ((a : Account D) (w' : World D)
          → account_of user c t.accounts ≡ some a
          → w'.tables ≡ t
          → IsValid (f a w').1.tables)
      → IsValid ((wrapped s (get_account_by_user_id_and_currency user c) >>= f) w).1.tables
  unfolding get_account_by_user_id_and_currency
  after_fetch s user c f t w v here next =
      let m = wrapped s (get_account_by_user_id_and_currency user c) in
      let same : (m w).1.tables ≡ t = ground arith in
      after m f w (rw same v) λ a e. next a (m w).1 (ground arith) same

  module _ (trade : Trade D) (from to : Account D) (w : World D) (apart : from.id ≢ to.id)
      (v : IsValid w.tables) where
    transfer_usd-IsValid :
        IsStorable (trade.price ⊗ trade.qty) → IsValid (transfer_usd trade from to w).1.tables
    unfolding perform
    transfer_usd-IsValid st =
        perform-IsValid (transfer from.id to.id (trade.price ⊗ trade.qty) usd "TRADE" trade.id) w
          (st, apart) v

    transfer_base-IsValid : IsStorable trade.qty → IsValid (transfer_base trade from to w).1.tables
    unfolding perform
    transfer_base-IsValid st =
        if_split (λ (m : Action D (Unit {0})). IsValid (m w).1.tables) (is_btc_usd trade.symbol)
          (λ _.
            perform-IsValid (transfer from.id to.id trade.qty btc "TRADE" trade.id) w (st, apart) v)
          (λ _.
            perform-IsValid (transfer from.id to.id trade.qty eth "TRADE" trade.id) w (st, apart) v)

  commit_nothing :
      (s : String) (tx : Tx D) (w : World D)
      → tx.statements ≡ []
      → IsValid w.tables
      → IsValid (wrapped s (commit tx) w).1.tables
  commit_nothing s tx w none_ v =
      let same : (wrapped s (commit tx) w).1.tables ≡ w.tables = ground arith in rw same v

  pay-IsValid :
      (trade : Trade D) (a b c d : Account D) (w : World D)
      → a.id ≢ b.id
      → c.id ≢ d.id
      → IsStorable trade.qty
      → IsStorable (trade.price ⊗ trade.qty)
      → IsValid w.tables
      → IsValid (pay trade a b c d w).1.tables
  pay-IsValid trade a b c d w n n' st st' v =
      if_split (λ (m : Action D (Unit {0})). IsValid (m w).1.tables) (is_buy trade.side)
        (λ _.
          let u = transfer_usd-IsValid trade a b w n v st' in
          after (transfer_usd trade a b) (λ _. transfer_base trade d c) w u
            λ x r.
              transfer_base-IsValid trade d c (transfer_usd trade a b w).1 (λ e. n' (sym e)) u st)
        (λ _.
          let u = transfer_base-IsValid trade c d w n' v st in
          after (transfer_base trade c d) (λ _. transfer_usd trade b a) w u
            λ x r.
              transfer_usd-IsValid trade b a (transfer_base trade c d w).1 (λ e. n (sym e)) u st')

  -- Paying a trade between two users, for amounts of at most ten decimal places, keeps the tables
  -- valid, whether it succeeds or fails half-way.
  pub process_trade-IsValid :
      (trade : Trade D) (w : World D)
      → trade.taker_id ≢ trade.maker_id
      → IsStorable trade.qty
      → IsStorable (trade.price ⊗ trade.qty)
      → IsValid w.tables
      → IsValid (process_trade trade w).1.tables
  unfolding process_trade
  process_trade-IsValid trade w n st st' v =
      let c = base_currency trade in
      let rows = w.tables.accounts in
      let finish = λ (tx : Tx D) (a b d e : Account D).
        pay trade a b d e >> wrapped "failed to commit transaction" (commit tx) in
      let fourth = λ (tx : Tx D) (a b d : Account D).
        wrapped (maker_base_error trade) (get_account_by_user_id_and_currency trade.maker_id c)
        >>= finish tx a b d in
      let third = λ (tx : Tx D) (a b : Account D).
        wrapped (taker_base_error trade) (get_account_by_user_id_and_currency trade.taker_id c)
        >>= fourth tx a b in
      let second = λ (tx : Tx D) (a : Account D).
        wrapped "failed to get maker USD account"
          (get_account_by_user_id_and_currency trade.maker_id usd)
        >>= third tx a in
      let first = λ (tx : Tx D).
        wrapped "failed to get taker USD account"
          (get_account_by_user_id_and_currency trade.taker_id usd)
        >>= second tx in
      after_begin "failed to begin transaction" first w v λ tx w₁ no_statement e₁.
        after_fetch "failed to get taker USD account" trade.taker_id usd (second tx) w.tables w₁ v
          e₁
          λ a w₂ fa e₂.
            after_fetch "failed to get maker USD account" trade.maker_id usd (third tx a) w.tables
              w₂ v e₂
              λ b w₃ fb e₃.
                after_fetch (taker_base_error trade) trade.taker_id c (fourth tx a b) w.tables w₃ v
                  e₃
                  λ d w₄ fd e₄.
                    after_fetch (maker_base_error trade) trade.maker_id c (finish tx a b d) w.tables
                      w₄ v e₄
                      λ e w₅ fe e₅.
                        let apart =
                          distinct_accounts trade.taker_id trade.maker_id usd rows v.keyed fa fb
                            n in
                        let apart_base =
                          distinct_accounts trade.taker_id trade.maker_id c rows v.keyed fd fe n in
                        let v₅ : IsValid w₅.tables = rw e₅ v in
                        let paid = pay-IsValid trade a b d e w₅ apart apart_base st st' v₅ in
                        after (pay trade a b d e)
                          (λ _. wrapped "failed to commit transaction" (commit tx)) w₅ paid
                          λ x r.
                            commit_nothing "failed to commit transaction" tx
                              (pay trade a b d e w₅).1 no_statement paid
