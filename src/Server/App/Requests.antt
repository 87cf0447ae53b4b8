-- ===== src/Server/App/Requests.antt =====
-- What a request does to the ledger.
use micro_coin.Base.{
  ℕ, ◌+◌, ◌≡◌, ◌≢◌, refl, ◌∙◌, subst, [], ◌∷◌, ◌++◌, String, Option, none, some, append_assoc,
  Option-cases, inl, inr, arith, All,
}
use micro_coin.Decimal.{Decimal, IsDecimal, IsStorable}
use micro_coin.Models.{
  TopUpRequest, TopUpResponse, CreateOrderRequest, CreateOrderResponse, usd, btc, eth,
}
use micro_coin.Database.World.{World, ok, err, Error, Result-cases}
use micro_coin.Database.Users.{create_user, new_account, user_accounts}
use micro_coin.Ledger.Spec.Opened.{IsNew, opened-IsValid, missing-append}
use micro_coin.Http.{Request, context_value}
use micro_coin.Auth.Middleware.{user_id_key}
use micro_coin.Idempotency.{
  Hashing, check_idempotency, get_idempotency_key, store_idempotency, create_idempotency_key,
}
use micro_coin.Idempotency.Handler.{admit, admitted, answered, Admission}
use micro_coin.Ledger.Spec.Invariant.{IsValid}
use micro_coin.Ledger.Session.{perform-IsValid, perform, top_up as topping_up}
use micro_coin.Ledger.Service.{top_up_user}
use micro_coin.Orders.Exchange.{Exchange}
use micro_coin.Orders.Create.{
  Ending, finished, crashed, endless, create_order, find_fill_price, order_for,
}
use micro_coin.Orders.Create.Invariant.{IsPayable, IsValid-along, create_order-IsValid}
use micro_coin.Orders.Create.Stages.{trades_of}
use micro_coin.Orders.Service.{calculate_required_amount}
use micro_coin.Server.Money.{respond, topup_handler, create_order_handler, after_order}

module _ {D : Type 0} ⦃dec : Decimal D⦄ ⦃laws : IsDecimal D⦄ where
  admit_leaves :
      (hash : Hashing) (r : Request) (w : World D)
      → (admit hash user_id_key r w).1.tables ≡ w.tables
  unfolding admit check_idempotency get_idempotency_key
  admit_leaves hash r w = ground arith

  admitted_body :
      (hash : Hashing) (r : Request) (w : World D) (user : ℕ) (key body fingerprint : String)
      → (admit hash user_id_key r w).0 ≡ admitted user key body fingerprint
      → (r.body ≡ some body) × (context_value user_id_key r.context ≡ some user)
  unfolding admit check_idempotency get_idempotency_key
  admitted_body hash r w user key body fingerprint e = (ground arith, ground arith)

  respond-IsValid :
      (jsonb : String → Option String) (user : ℕ) (key fingerprint : String) (text : Option String)
      (w : World D)
      → IsValid w.tables
      → IsValid (respond jsonb user key fingerprint text w).1.tables
  unfolding respond store_idempotency create_idempotency_key
  respond-IsValid jsonb user key fingerprint none w v = v
  respond-IsValid jsonb user key fingerprint (some text) w v =
      let t = (respond jsonb user key fingerprint (some text) w).1.tables in
      let same : t.accounts ≡ w.tables.accounts = ground arith in
      let same' : t.ledger_entries ≡ w.tables.ledger_entries = ground arith in
      IsValid-along w.tables t same same' v

  top_up_user-IsValid :
      (user : ℕ) (x : D) (w : World D)
      → IsStorable x
      → IsValid w.tables
      → IsValid (top_up_user user x w).1.tables
  unfolding perform
  top_up_user-IsValid user x w st v = perform-IsValid (topping_up user x) w st v

  -- A top-up reads an amount that fits its column.
  pub topup_handler-IsValid :
      (jsonb : String → Option String) (hash : Hashing) (print : Error → String)
      (read : String → Option (TopUpRequest D)) (write : TopUpResponse D → Option String)
      (r : Request) (w : World D)
      → ((body : String) (req : TopUpRequest D)
          → r.body ≡ some body
          → read body ≡ some req
          → IsStorable req.amount)
      → IsValid w.tables
      → IsValid (topup_handler jsonb hash print read write r w).1.tables
  unfolding topup_handler
  topup_handler-IsValid jsonb hash print read write r w st v =
      go (admit hash user_id_key r w).0 refl
    where
      w' : World D
      w' = (admit hash user_id_key r w).1

      v' : IsValid w'.tables
      v' = rw (admit_leaves hash r w) v

      go :
          (a : Admission)
          → (admit hash user_id_key r w).0 ≡ a
          → IsValid (topup_handler jsonb hash print read write r w).1.tables
      go (answered response) e = rw (topup_handler, e) v'
      go (admitted user key body fingerprint) e = elim (Option-cases (read body)) [
        | inl h ↦ rw (topup_handler, e, h) v'
        | inr (req, h) ↦
            let v'' =
              top_up_user-IsValid user req.amount w'
                (st body req (admitted_body hash r w user key body fingerprint e).0 h) v' in
            elim (Result-cases (top_up_user user req.amount w').0) [
              | inl (_, k) ↦ rw (topup_handler, e, h, k) v''
              | inr (account, k) ↦
                  rw (topup_handler, e, h, k)
                    (respond-IsValid jsonb user key fingerprint
                      (write (record { balance = account.balance_available }))
                      (top_up_user user req.amount w').1 v'')
            ]
      ]

  after_order-IsValid :
      (jsonb : String → Option String) (hash : Hashing) (print : Error → String)
      (write : CreateOrderResponse D → Option String) (user : ℕ) (key fingerprint : String)
      (ending : Ending (CreateOrderResponse D)) (x : Exchange D)
      → IsValid x.world.tables
      → IsValid (after_order jsonb hash print write user key fingerprint ending x).1.world.tables
  unfolding after_order
  after_order-IsValid jsonb hash print write user key fingerprint crashed x v = v
  after_order-IsValid jsonb hash print write user key fingerprint endless x v = v
  after_order-IsValid jsonb hash print write user key fingerprint (finished (err e)) x v = v
  after_order-IsValid jsonb hash print write user key fingerprint (finished (ok response)) x v =
      respond-IsValid jsonb user key fingerprint (write response) x.world v

  -- The amounts that an order holds and trades fit their columns, and each trade is between two users.
  pub record OrderFits (fuel user : ℕ) (req : CreateOrderRequest D) (x : Exchange D) : Type 0 where
    pub held :
        (price : Option D) (amount : D)
        → find_fill_price req x ≡ ok price
        → calculate_required_amount req price ≡ some (ok amount)
        → IsStorable amount
    pub traded : (id now : ℕ) → All IsPayable (trades_of fuel x (order_for user req id now))

  pub create_order_handler-IsValid :
      (jsonb : String → Option String) (hash : Hashing) (print : Error → String) (fuel : ℕ)
      (read : String → Option (CreateOrderRequest D))
      (write : CreateOrderResponse D → Option String) (r : Request) (x : Exchange D)
      → ((user : ℕ) (body : String) (req : CreateOrderRequest D)
          → context_value user_id_key r.context ≡ some user
          → r.body ≡ some body
          → read body ≡ some req
          → OrderFits fuel user req x)
      → IsValid x.world.tables
      → IsValid (create_order_handler jsonb hash print fuel read write r x).1.world.tables
  unfolding create_order_handler find_fill_price
  create_order_handler-IsValid jsonb hash print fuel read write r x fits v =
      go (admit hash user_id_key r x.world).0 refl
    where
      x' : Exchange D
      x' = record x { world = (admit hash user_id_key r x.world).1 }

      v' : IsValid x'.world.tables
      v' = rw (admit_leaves hash r x.world) v

      go :
          (a : Admission)
          → (admit hash user_id_key r x.world).0 ≡ a
          → IsValid (create_order_handler jsonb hash print fuel read write r x).1.world.tables
      go (answered response) e = rw (create_order_handler, e) v'
      go (admitted user key body fingerprint) e = elim (Option-cases (read body)) [
        | inl h ↦ rw (create_order_handler, e, h) v'
        | inr (req, h) ↦
            let (given, who) = admitted_body hash r x.world user key body fingerprint e in
            let f = fits user body req who given h in
            let made =
              create_order-IsValid fuel user req x' (λ price amount p. f.held price amount p)
                (λ id now. f.traded id now) v' in
            rw (create_order_handler, e, h)
              (after_order-IsValid jsonb hash print write user key fingerprint
                (create_order fuel user req x').0 (create_order fuel user req x').1 made)
      ]

  -- The ids of a new user's accounts are in no row and distinct.
  pub record FreshIds (w : World D) : Type 0 where
    pub one : IsNew w.tables (new_account (w.fresh (w.ids + 1)) (w.fresh w.ids) usd)
    pub two : IsNew w.tables (new_account (w.fresh (w.ids + 2)) (w.fresh w.ids) btc)
    pub three : IsNew w.tables (new_account (w.fresh (w.ids + 3)) (w.fresh w.ids) eth)
    pub apart :
        (w.fresh (w.ids + 1) ≢ w.fresh (w.ids + 2))
        × (w.fresh (w.ids + 1) ≢ w.fresh (w.ids + 3))
        × (w.fresh (w.ids + 2) ≢ w.fresh (w.ids + 3))

  three_opened :
      (w : World D)
      → FreshIds w
      → IsValid w.tables
      → IsValid (record w.tables { accounts = w.tables.accounts ++ user_accounts w })
  three_opened w f v =
      let a = new_account (w.fresh (w.ids + 1)) (w.fresh w.ids) usd in
      let b = new_account (w.fresh (w.ids + 2)) (w.fresh w.ids) btc in
      let c = new_account (w.fresh (w.ids + 3)) (w.fresh w.ids) eth in
      let (n, n', n'') = f.apart in
      let t = w.tables in
      let t₁ = record t { accounts = t.accounts ++ a ∷ [] } in
      let t₂ = record t₁ { accounts = t₁.accounts ++ b ∷ [] } in
      let v₁ = opened-IsValid t a v f.one in
      let (z, z', absent, unposted) = f.two in
      let v₂ =
        opened-IsValid t₁ b v₁ (z, z', missing-append b.id t.accounts a absent n, unposted) in
      let (y, y', absent', unposted') = f.three in
      let v₃ = opened-IsValid t₂ c v₂ (
        y,
        y',
        missing-append c.id t₁.accounts b (missing-append c.id t.accounts a absent' n') n'',
        unposted',
      ) in
      let rows : t₂.accounts ++ c ∷ [] ≡ t.accounts ++ user_accounts w =
        append_assoc (t.accounts ++ a ∷ []) (b ∷ []) (c ∷ [])
        ∙ append_assoc t.accounts (a ∷ []) (b ∷ c ∷ []) in
      subst (λ rs. IsValid (record t { accounts = rs })) rows v₃

  pub create_user-IsValid :
      (email text : String) (w : World D)
      → FreshIds w
      → IsValid w.tables
      → IsValid (create_user email text w).1.tables
  unfolding create_user
  create_user-IsValid email text w f v = elim (Result-cases (create_user email text w).0) [
    | inl (e, h) ↦
        let same : (create_user email text w).1.tables ≡ w.tables = ground arith in rw same v
    | inr (u, h) ↦
        let t = (create_user email text w).1.tables in
        let rows : t.accounts ≡ w.tables.accounts ++ user_accounts w = ground arith in
        let entries : t.ledger_entries ≡ w.tables.ledger_entries = ground arith in
        IsValid-along (record w.tables { accounts = w.tables.accounts ++ user_accounts w }) t rows
          entries (three_opened w f v)
  ]
