-- ===== src/Database/Users.antt =====
-- internal/database/user.go: `UserRepository`. A new row of `users` fires the trigger
-- `create_user_accounts` of the migrations. The database makes up the ids, from the same source as
-- `uuid.New()` here.
pub mod Signup
use text.Mathlib.Text.{◌==◌ as str_eq}
use micro_coin.Base.{
  ℕ, suc, ◌+◌, Bool, true, false, List, [], ◌∷◌, ◌++◌, String, Option, some, none, if◌then◌else◌,
  find_first,
}
use micro_coin.Decimal.{Decimal, nought}
use micro_coin.Models.{User, Account, Currency, usd, btc, eth}
use micro_coin.Database.Tables.{is_some, has_user_id}
use micro_coin.Database.World.{
  World, Action, message, driver, ok, ◌>>=◌, ◌>>◌, pure, fail_if, wrapped, or_fail, call_driver,
  gets,
}

abbrev pub has_email : String → User → Bool
has_email email u = str_eq u.email email

module _ {D : Type 0} where
  unfoldable pub get_user_by_email : String → Action D User
  get_user_by_email email = do
    wrapped "failed to get user" call_driver
    found ← gets (λ w. find_first (has_email email) w.tables.users)
    or_fail found (message "user not found")

  unfoldable pub get_user_by_id : ℕ → Action D User
  get_user_by_id id = do
    wrapped "failed to get user" call_driver
    found ← gets (λ w. find_first (has_user_id id) w.tables.users)
    or_fail found (message "user not found")

  unfoldable pub user_exists : String → Action D Bool
  user_exists email = do
    wrapped "failed to check user existence" call_driver
    gets (λ w. is_some (find_first (has_email email) w.tables.users))

module _ {D : Type 0} ⦃dec : Decimal D⦄ where
  abbrev pub new_account : ℕ → ℕ → Currency → Account D
  new_account id user currency = record {
    id = id;
    user_id = user;
    currency = currency;
    balance_available = nought;
    balance_hold = nought;
  }

  abbrev pub new_user : World D → String → String → User
  new_user w email password_hash = record {
    id = w.fresh w.ids;
    email = email;
    password_hash = password_hash;
    created_at = w.clock w.calls;
  }

  -- The accounts that the trigger adds.
  abbrev pub user_accounts : World D → List (Account D)
  user_accounts w =
      new_account (w.fresh (w.ids + 1)) (w.fresh w.ids) usd
      ∷ new_account (w.fresh (w.ids + 2)) (w.fresh w.ids) btc
      ∷ new_account (w.fresh (w.ids + 3)) (w.fresh w.ids) eth
      ∷ []

  abbrev pub insert_user : String → String → Action D User
  insert_user email password_hash w = (
    ok (new_user w email password_hash),
    record w {
      ids = w.ids + 4;
      tables = record w.tables {
        users = w.tables.users ++ new_user w email password_hash ∷ [];
        accounts = w.tables.accounts ++ user_accounts w;
      };
    },
  )

  -- INSERT INTO users ... RETURNING; an email is unique.
  unfoldable pub create_user : String → String → Action D User
  create_user email password_hash = wrapped "failed to create user" (do
    call_driver
    taken ← gets (λ w. is_some (find_first (has_email email) w.tables.users))
    fail_if taken driver
    insert_user email password_hash)
