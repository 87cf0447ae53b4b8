-- ===== src/Database/World.antt =====
-- Calls of the database: errors as values, and the state of the server that a call leaves behind.
use micro_coin.Base.{
  ℕ, suc, Bool, true, false, List, [], ◌∷◌, ◌++◌, Option, none, some, String, if◌then◌else◌, ◌≡◌,
  ◌⊎◌, inl, inr, refl,
}
use micro_coin.Decimal.{Decimal}
use micro_coin.Database.Tables.{Tables, Statement, allowed, apply, apply_all}

-- An error by its message; `wrap` is `fmt.Errorf("message: %w", err)`. The amounts that a message
-- formats are left out.
pub data Error : Type 0 where
  message : String → Error
  wrap : String → Error → Error
  -- what the driver reports
  driver : Error

pub data Result {ℓ} (A : Type ℓ) : Type ℓ where
  ok : A → Result A
  err : Error → Result A

pub Result-cases {ℓ} :
    {A : Type ℓ} (r : Result A) → ((e : Error) × (r ≡ err e)) ⊎ ((a : A) × (r ≡ ok a))
Result-cases (ok a) = inr (a, refl)
Result-cases (err e) = inl (e, refl)

-- `fails n` says whether the n-th call of the driver fails, `clock n` is the time at it.
pub record World (D : Type 0) : Type 0 where
  pub tables : Tables D
  pub fails : ℕ → Bool
  pub clock : ℕ → ℕ
  pub calls : ℕ
  pub fresh : ℕ → ℕ
  pub ids : ℕ

abbrev pub Action : Type 0 → Type 0 → Type 0
Action D A = World D → Result A × World D

-- A transaction: the time at which it began, which is its NOW(), and its statements, oldest first,
-- which reach the tables when it is committed.
pub record Tx (D : Type 0) : Type 0 where
  pub started : ℕ
  pub statements : List (Statement D)

module _ {D : Type 0} where
  infixl 5 ◌>>=◌ ◌>>◌
  abbrev pub ◌>>=◌ : {A B : Type 0} → Action D A → (A → Action D B) → Action D B
  ◌>>=◌ m f w = let (r, w') = m w in elim r [ ok a ↦ f a w' | err e ↦ (err e, w') ]

  abbrev pub ◌>>◌ : {A B : Type 0} → Action D A → Action D B → Action D B
  m >> k = m >>= λ _. k

  abbrev pub pure : {A : Type 0} → A → Action D A
  pure a w = (ok a, w)

  abbrev pub throw : {A : Type 0} → Error → Action D A
  throw e w = (err e, w)

  abbrev pub fail_if : Bool → Error → Action D (Unit {0})
  fail_if b e w = (if b then err e else ok tt, w)

  abbrev pub or_fail : {A : Type 0} → Option A → Error → Action D A
  or_fail none e = throw e
  or_fail (some a) e = pure a

  -- `if err != nil { return fmt.Errorf("message: %w", err) }`
  abbrev pub wrapped : {A : Type 0} → String → Action D A → Action D A
  wrapped s m w = let (r, w') = m w in (elim r [ ok a ↦ ok a | err e ↦ err (wrap s e) ], w')

  -- One call of the driver.
  abbrev pub call_driver : Action D (Unit {0})
  call_driver w = (if w.fails w.calls then err driver else ok tt, record w { calls = suc w.calls })

  abbrev pub gets : {A : Type 0} → (World D → A) → Action D A
  gets f w = (ok (f w), w)

  -- `uuid.New()`
  abbrev pub new_uuid : Action D ℕ
  new_uuid w = (ok (w.fresh w.ids), record w { ids = suc w.ids })

  abbrev pub begin : Action D (Tx D)
  begin = call_driver >> λ w. (ok (record { started = w.clock w.calls; statements = [] }), w)

module _ {D : Type 0} ⦃dec : Decimal D⦄ where
  -- The tables as a transaction sees them.
  abbrev pub pending : World D → Tx D → Tables D
  pending w tx = apply_all tx.started w.tables tx.statements

  -- `tx.Exec`: the statement must meet the constraints.
  abbrev pub exec : Tx D → Statement D → Action D (Tx D)
  exec tx s w =
      (call_driver
          >> fail_if (if allowed (pending w tx) s then false else true) driver
          >> pure (record tx { statements = tx.statements ++ s ∷ [] }))
        w

  -- `tx.Commit`. A transaction that is not committed leaves no trace (`defer tx.Rollback()`).
  abbrev pub commit : Tx D → Action D (Unit {0})
  commit tx = call_driver >> λ w. (ok tt, record w { tables = pending w tx })

  -- `db.Exec`: a statement that commits at once.
  abbrev pub exec_now : Statement D → Action D (Unit {0})
  exec_now s = do
    call_driver
    t ← gets (λ w. w.tables)
    fail_if (if allowed t s then false else true) driver
    λ w. (ok tt, record w { tables = apply (w.clock w.calls) w.tables s })
