-- ===== src/Database/Keeps.antt =====
-- A property of the tables that an action keeps, whether it fails or not.
use micro_coin.Base.{ℕ, ◌≡◌, refl, [], String, arith}
use micro_coin.Decimal.{Decimal}
use micro_coin.Models.{Currency}
use micro_coin.Database.Tables.{Tables}
use micro_coin.Database.World.{World, Action, Result, Tx, ok, err, ◌>>=◌, wrapped, begin, commit}
use micro_coin.Database.Accounts.{get_account_by_user_id_and_currency}

module _ {D : Type 0} (P : Tables D → Type 0) where
  abbrev pub Keeps : {A : Type 0} → Action D A → Type 0
  Keeps m = (w : World D) → P w.tables → P (m w).1.tables

  -- What follows may use the result of the first action.
  pub Keeps-bind :
      {A B : Type 0} (m : Action D A) (f : A → Action D B)
      → Keeps m
      → ((a : A) (w : World D) → (m w).0 ≡ ok a → Keeps (f a))
      → Keeps (m >>= f)
  Keeps-bind {A} {B} m f k next w p = go (m w).0 (m w).1 (k w p) (λ a e. next a w e)
    where
      go :
          (r : Result A) (w' : World D)
          → P w'.tables
          → ((a : A) → r ≡ ok a → Keeps (f a))
          → P (elim r as (λ _. Result B × World D) [ ok a ↦ f a w' | err e ↦ (err e, w') ]).1.tables
      go (ok a) w' p next = next a refl w' p
      go (err e) w' p next = p

  pub begin-Keeps : (s : String) → Keeps (wrapped s begin)
  begin-Keeps s w p = let same : (wrapped s begin w).1.tables ≡ w.tables = ground arith in rw same p

  pub query-Keeps :
      (s : String) (user : ℕ) (c : Currency)
      → Keeps (wrapped s (get_account_by_user_id_and_currency user c))
  unfolding get_account_by_user_id_and_currency
  query-Keeps s user c w p =
      let same : (wrapped s (get_account_by_user_id_and_currency user c) w).1.tables ≡ w.tables =
        ground arith in
      rw same p

  pub begin_empty :
      (s : String) (w : World D) (tx : Tx D) → (wrapped s begin w).0 ≡ ok tx → tx.statements ≡ []
  begin_empty s w tx h = ground arith

module _ {D : Type 0} ⦃dec : Decimal D⦄ (P : Tables D → Type 0) where
  -- The commit of a transaction without statements.
  pub commit-Keeps : (s : String) (tx : Tx D) → tx.statements ≡ [] → Keeps P (wrapped s (commit tx))
  commit-Keeps s tx h w p =
      let same : (wrapped s (commit tx) w).1.tables ≡ w.tables = ground arith in rw same p
