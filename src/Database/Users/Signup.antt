-- ===== src/Database/Users/Signup.antt =====
-- What a signup leaves in the database.
use micro_coin.Base.Text.{str_eq_refl}
use micro_coin.Base.{
  suc, ◌+◌, ◌≡◌, refl, Bool, Option, false, List, [], ◌∷◌, ◌++◌, String, some, none, arith,
  find_first, ==_refl,
}
use micro_coin.Decimal.{Decimal, nought}
use micro_coin.Models.{User, Account, Currency, usd, btc, eth}
use micro_coin.Database.Tables.{account_of, belongs, is_some}
use micro_coin.Database.World.{World, ok}
use micro_coin.Database.Users.{
  create_user, get_user_by_email, has_email, user_accounts, new_user, new_account,
}

found_behind {ℓ} :
    {A : Type ℓ} (p : A → Bool) (xs ys : List A)
    → find_first p xs ≡ none
    → find_first p (xs ++ ys) ≡ find_first p ys
found_behind p [] ys h = refl
found_behind p (x ∷ xs) ys h = ground (arith, found_behind p xs ys)

missing_of {ℓ} : {A : Type ℓ} (o : Option A) → is_some o ≡ false → o ≡ none
missing_of none h = refl
missing_of (some a) h = cc

module _ {D : Type 0} ⦃dec : Decimal D⦄ where
  inserted :
      (email hash : String) (w : World D) (u : User)
      → (create_user email hash w).0 ≡ ok u
      → (u ≡ new_user (record w { calls = suc w.calls }) email hash)
        × (find_first (has_email email) w.tables.users ≡ none)
        × ((create_user email hash w).1.tables.users ≡ w.tables.users ++ u ∷ [])
        × ((create_user email hash w).1.tables.accounts ≡ w.tables.accounts ++ user_accounts w)
        × ((create_user email hash w).1.calls ≡ suc w.calls)
        × ((create_user email hash w).1.fails ≡ w.fails)
  unfolding create_user
  inserted email hash w u h =
      let new_ = missing_of (find_first (has_email email) w.tables.users) in
      (ground arith, ground (arith, new_), ground arith, ground arith, ground arith, ground arith)

  -- The email finds the new user, if the server answers.
  pub found :
      (email hash : String) (w : World D) (u : User)
      → (create_user email hash w).0 ≡ ok u
      → w.fails (suc w.calls) ≡ false
      → (get_user_by_email email (create_user email hash w).1).0 ≡ ok u
  unfolding get_user_by_email
  found email hash w u h up =
      let (e, absent, users, accounts, calls, fails) = inserted email hash w u h in
      let here : find_first (has_email email) (u ∷ []) ≡ some u =
        ground (arith, e, str_eq_refl email) in
      let there : find_first (has_email email) (create_user email hash w).1.tables.users ≡ some u =
        rw (users, found_behind (has_email email) w.tables.users (u ∷ []) absent) here in
      ground (arith, there, calls, fails)

  -- An insertion succeeds where the email is free and the server answers.
  pub created :
      (email hash : String) (w : World D)
      → find_first (has_email email) w.tables.users ≡ none
      → w.fails w.calls ≡ false
      → (create_user email hash w).0 ≡ ok (new_user (record w { calls = suc w.calls }) email hash)
  unfolding create_user
  created email hash w free up = ground arith

  opened :
      (w : World D) (c : Currency)
      → (a : Account D) × (account_of (w.fresh w.ids) c (user_accounts w) ≡ some a)
        × (a.balance_available ≡ nought)
        × (a.balance_hold ≡ nought)
  opened w usd = (
    new_account (w.fresh (w.ids + 1)) (w.fresh w.ids) usd,
    ground (arith, ==_refl (w.fresh w.ids)),
    refl,
    refl,
  )
  opened w btc = (
    new_account (w.fresh (w.ids + 2)) (w.fresh w.ids) btc,
    ground (arith, ==_refl (w.fresh w.ids)),
    refl,
    refl,
  )
  opened w eth = (
    new_account (w.fresh (w.ids + 3)) (w.fresh w.ids) eth,
    ground (arith, ==_refl (w.fresh w.ids)),
    refl,
    refl,
  )

  -- After a signup that succeeds, a query by the email to which the server answers finds the new user,
  -- and in each currency the user has an account with nothing in it, if the new user's id owned no
  -- account before.
  pub get_user_by_email-create_user :
      (email hash : String) (w : World D) (u : User) (c : Currency)
      → (create_user email hash w).0 ≡ ok u
      → w.fails (suc w.calls) ≡ false
      → account_of u.id c w.tables.accounts ≡ none
      → ((get_user_by_email email (create_user email hash w).1).0 ≡ ok u)
        × ((a : Account D) × (account_of u.id c (create_user email hash w).1.tables.accounts
              ≡ some a)
            × (a.balance_available ≡ nought)
            × (a.balance_hold ≡ nought))
  unfolding get_user_by_email
  get_user_by_email-create_user email hash w u c h up unowned =
      let (e, absent, users, accounts, calls, fails) = inserted email hash w u h in
      let (a, own, available, held) = opened w c in
      let id : u.id ≡ w.fresh w.ids = rw e refl in
      (
        found email hash w u h up,
        (
          a,
          rw
              (
                accounts,
                found_behind (belongs u.id c) w.tables.accounts (user_accounts w) unowned,
                id,
              )
              own,
          available,
          held,
        ),
      )
