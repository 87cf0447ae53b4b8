-- ===== src/Ledger/Tests.antt =====
-- The ledger's theorems at a small database of whole amounts, whose server answers every call.
use micro_coin.Base.{ℕ, ◌+◌, ◌≡◌, ◌≢◌, refl, List, [], ◌∷◌, map, some, false}
use micro_coin.Base.Int.{ℤ, pos, negsuc, ◌+ℤ◌, ◌-ℤ◌}
use micro_coin.Decimal.Instance.{int_decimal, int_IsDecimal}
use micro_coin.Models.{Account, LedgerEntry, Currency, usd, btc}
use micro_coin.Database.Tables.{Tables, insert_entry, account_by_id}
use micro_coin.Database.World.{World, Tx, ok, commit}
use micro_coin.Ledger.Journal.{
  entry_of, create_journal, add_amounts, insert_entries, validate_journal_balance, sum_of_journal,
}
use micro_coin.Ledger.Journal.Balance.{validate_journal_balance-create_journal}
use micro_coin.Ledger.Service.{
  top_up_user, hold_funds, release_hold, transfer_funds, transfer_entries,
}
use micro_coin.Ledger.Service.Hold.{hold_funds-Refines, release_hold-Refines}
use micro_coin.Ledger.Service.Transfer.{
  transfer_funds-Refines, transfer_funds-succeeds, self_transfer,
}
use micro_coin.Ledger.Service.TopUp.{top_up_user-Refines, top_up_user-succeeds, top_up_user-fails}
use micro_coin.Ledger.Service.Inverse.{release_hold-hold_funds}
use micro_coin.Ledger.Spec.{held, released, moved, topped_up, Refines}
use micro_coin.Ledger.Spec.Invariant.{IsValid}
use micro_coin.Ledger.Session.{Call, top_up, hold, release, transfer, run, run-IsValid}

abbrev pub account : ℕ → ℕ → Currency → ℤ → ℤ → Account ℤ
account id user c available held = record {
  id = id;
  user_id = user;
  currency = c;
  balance_available = available;
  balance_hold = held;
}

abbrev seed : ℕ → ℤ → LedgerEntry ℤ
seed account amount = entry_of 9 account amount usd "SEED" 9

-- Users 7 and 8, and the account `uuid.Nil`.
abbrev pub tables : Tables ℤ
tables = record {
  users = [];
  accounts =
      account 0 0 usd (pos 0) (pos 0)
      ∷ account 1 7 usd (pos 100) (pos 20)
      ∷ account 2 8 usd (pos 50) (pos 0)
      ∷ account 3 7 btc (pos 5) (pos 0)
      ∷ account 4 8 btc (pos 3) (pos 0)
      ∷ [];
  ledger_entries =
      seed 0 (negsuc 177)
      ∷ seed 1 (pos 120)
      ∷ seed 2 (pos 50)
      ∷ seed 3 (pos 5)
      ∷ seed 4 (pos 3)
      ∷ [];
  orders = [];
  idempotency_keys = [];
  next_entry = 5;
}

abbrev world_of : Tables ℤ → World ℤ
world_of t = record {
  tables = t;
  fails = λ n. false;
  clock = λ n. n;
  calls = 0;
  fresh = λ n. n + 50;
  ids = 0;
}

abbrev pub world : World ℤ
world = world_of tables

abbrev lonely : World ℤ
lonely = world_of (record tables { accounts = account 1 7 usd (pos 100) (pos 0) ∷ [] })

pub tables-IsValid : IsValid tables
unfolding ◌+ℤ◌
tables-IsValid = record {
  keyed = (refl, (refl, (refl, (refl, (refl, tt)))));
  sound = (
    record {
      available_nonneg = λ e. cc;
      hold_nonneg = λ e. cc;
      available_storable = refl;
      hold_storable = refl;
    },
    (
      record {
        available_nonneg = λ e. cc;
        hold_nonneg = λ e. cc;
        available_storable = refl;
        hold_storable = refl;
      },
      (
        record {
          available_nonneg = λ e. cc;
          hold_nonneg = λ e. cc;
          available_storable = refl;
          hold_storable = refl;
        },
        (
          record {
            available_nonneg = λ e. cc;
            hold_nonneg = λ e. cc;
            available_storable = refl;
            hold_storable = refl;
          },
          (
            record {
              available_nonneg = λ e. cc;
              hold_nonneg = λ e. cc;
              available_storable = refl;
              hold_storable = refl;
            },
            tt,
          ),
        ),
      ),
    ),
  );
  balanced = refl;
  reconciled =
      ((λ n. absurd (n refl)), ((λ n. refl), ((λ n. refl), ((λ n. refl), ((λ n. refl), tt)))));
}

abbrev calls : List (Call ℤ)
calls =
    top_up 7 (pos 5)
    ∷ hold 7 usd (pos 10)
    ∷ transfer 1 2 (pos 20) usd "TRADE" 4
    ∷ release 7 usd (pos 30)
    ∷ hold 8 btc (pos 9)
    ∷ []

run-IsValid_example : IsValid (run calls world).tables
run-IsValid_example =
    run-IsValid calls world (refl, (refl, ((refl, λ e. cc), (refl, (refl, tt))))) tables-IsValid

hold_funds-Refines_example :
    Refines (held 7 usd (pos 10) tables) world (hold_funds 7 usd (pos 10) world)
hold_funds-Refines_example = hold_funds-Refines 7 usd (pos 10) world

release_hold-Refines_example :
    Refines (released 7 usd (pos 10) tables) world (release_hold 7 usd (pos 10) world)
release_hold-Refines_example = release_hold-Refines 7 usd (pos 10) world

transfer_funds-Refines_example :
    Refines
      (moved 50 1 1 2 (pos 10) usd "TRADE" 4 tables)
      world
      (transfer_funds 1 2 (pos 10) usd "TRADE" 4 world)
transfer_funds-Refines_example = transfer_funds-Refines 1 2 (pos 10) usd "TRADE" 4 world

top_up_user-Refines_example :
    Refines (topped_up 50 1 7 (pos 10) tables) world (top_up_user 7 (pos 10) world)
top_up_user-Refines_example = top_up_user-Refines 7 (pos 10) world

transfer_funds-succeeds_example : (transfer_funds 1 2 (pos 10) usd "TRADE" 4 world).0 ≡ ok tt
transfer_funds-succeeds_example =
    transfer_funds-succeeds 1 2 (pos 10) usd "TRADE" 4 world (λ n. refl) (λ e. cc)

top_up_user-succeeds_example :
    (top_up_user 7 (pos 10) world).0 ≡ ok (account 1 7 usd (pos 110) (pos 20))
unfolding ◌+ℤ◌
top_up_user-succeeds_example =
    top_up_user-succeeds 7 (pos 10) world (account 1 7 usd (pos 100) (pos 20))
      (account 0 0 usd (pos 0) (pos 0)) (λ n. refl) (refl, (refl, (refl, (refl, (refl, tt))))) refl
      refl refl

top_up_user-fails_example :
    ((a : Account ℤ) → (top_up_user 7 (pos 10) lonely).0 ≢ ok a)
    × ((top_up_user 7 (pos 10) lonely).1.tables ≡ lonely.tables)
top_up_user-fails_example = top_up_user-fails 7 (pos 10) lonely refl

self_transfer_example :
    account_by_id 1 (transfer_funds 1 1 (pos 10) usd "TRADE" 4 world).1.tables.accounts
    ≡ some (account 1 7 usd (pos 110) (pos 20))
unfolding ◌+ℤ◌
self_transfer_example =
    self_transfer 1 (pos 10) usd "TRADE" 4 world (account 1 7 usd (pos 100) (pos 20)) refl
      (transfer_funds-succeeds 1 1 (pos 10) usd "TRADE" 4 world (λ n. refl) (λ e. cc))

release_hold-hold_funds_example :
    ((hold_funds 7 usd (pos 10) world).0 ≡ ok tt)
    × ((release_hold 7 usd (pos 10) (hold_funds 7 usd (pos 10) world).1).0 ≡ ok tt)
    × ((release_hold 7 usd (pos 10) (hold_funds 7 usd (pos 10) world).1).1.tables ≡ tables)
release_hold-hold_funds_example =
    release_hold-hold_funds 7 usd (pos 10) world (λ n. refl) tables-IsValid refl (λ e. cc)

abbrev tx : Tx ℤ
tx = record { started = 3; statements = [] }

abbrev entries : List (LedgerEntry ℤ)
entries = transfer_entries 50 1 2 (pos 10) usd "TRADE" 4

abbrev tx_after : Tx ℤ
tx_after = record tx { statements = map insert_entry entries }

validate_journal_balance-create_journal_example :
    (validate_journal_balance 50 (commit tx_after world).1).0 ≢ ok false
unfolding create_journal add_amounts insert_entries validate_journal_balance sum_of_journal ◌+ℤ◌
    ◌-ℤ◌
validate_journal_balance-create_journal_example =
    validate_journal_balance-create_journal 50 tx tx_after entries world world refl
      ((refl, refl), ((refl, refl), tt)) refl refl refl
