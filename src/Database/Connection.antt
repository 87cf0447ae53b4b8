-- ===== src/Database/Connection.antt =====
-- internal/database/database.go. `Sql` is what the file uses of the package database/sql, over its
-- pools `Db`, and `digits` is "%d".
use Prim.Native.String.{◌++◌ as concat}
use micro_coin.Base.{ℕ, arith, ◌≤◌, ◌≡◌, ◌∙◌, String, Option, none, some, inl, inr}
use micro_coin.Database.World.{Result, ok, err, wrap, Result-cases}

pub record Config : Type 0 where
  pub host : String
  pub port : ℕ
  pub user : String
  pub password : String
  pub db_name : String
  pub ssl_mode : String

abbrev pub default_config : Config
default_config = record {
  host = "localhost";
  port = 5432;
  user = "microcoin";
  password = "password";
  db_name = "microcoin";
  ssl_mode = "disable";
}

pub record Sql (Db : Type 0) : Type 0 where
  pub open_pool : String → String → Result Db
  pub ping : Db → Result (Unit {0})
  pub set_max_open_conns : ℕ → Db → Db
  pub set_max_idle_conns : ℕ → Db → Db
  pub close_pool : Db → Result (Unit {0})

abbrev pub dsn : (ℕ → String) → Config → String
dsn digits c = concat "host=" (
    concat c.host (
      concat " port=" (
        concat (digits c.port) (
          concat " user=" (
            concat c.user (
              concat " password=" (
                concat c.password
                  (concat " dbname=" (concat c.db_name (concat " sslmode=" c.ssl_mode))))))))))

module _ {Db : Type 0} (sql : Sql Db) where
  abbrev pub configured : Db → Db
  configured db = sql.set_max_idle_conns 5 (sql.set_max_open_conns 25 db)

  unfoldable pub connect : (ℕ → String) → Config → Result Db
  connect digits config = elim (sql.open_pool "postgres" (dsn digits config)) [
    | err e ↦ err (wrap "failed to open database" e)
    | ok db ↦ elim (sql.ping db) [
      | err e ↦ err (wrap "failed to ping database" e)
      | ok u ↦ ok (configured db)
    ]
  ]

  -- `none` is the nil pool.
  unfoldable pub close : Option Db → Result (Unit {0})
  close none = ok tt
  close (some db) = sql.close_pool db

  -- What the package documents of the limits of a pool, as far as `Connect` uses it.
  pub record HasLimits : Type 0 where
    pub max_open : Db → ℕ
    pub max_idle : Db → ℕ
    pub open_set : (n : ℕ) (db : Db) → max_open (sql.set_max_open_conns n db) ≡ n
    pub open_kept : (n : ℕ) (db : Db) → max_open (sql.set_max_idle_conns n db) ≡ max_open db
    pub idle_set : (n : ℕ) (db : Db) → n ≤ max_open db → max_idle (sql.set_max_idle_conns n db) ≡ n

  -- A pool that `Connect` returns comes from the server of the configuration, which has answered a
  -- ping, and may have 25 connections open and 5 of them idle.
  pub connect_lem :
      (limits : HasLimits) (digits : ℕ → String) (config : Config) (pool : Db)
      → connect digits config ≡ ok pool
      → (db : Db) × (sql.open_pool "postgres" (dsn digits config) ≡ ok db)
        × (sql.ping db ≡ ok tt)
        × (limits.max_open pool ≡ 25)
        × (limits.max_idle pool ≡ 5)
  unfolding connect
  connect_lem limits digits config pool h =
      elim (Result-cases (sql.open_pool "postgres" (dsn digits config))) [
        | inl (e, o) ↦ absurd (ground (arith, h, o))
        | inr (db, o) ↦ elim (Result-cases (sql.ping db)) [
          | inl (e, p) ↦ absurd (ground (arith, h, o, p))
          | inr (u, p) ↦
              let same : pool ≡ configured db = ground (arith, h, o, p) in
              let opened = sql.set_max_open_conns 25 db in
              let wide = limits.open_set 25 db in
              (
                db,
                o,
                p,
                rw same (limits.open_kept 5 opened ∙ wide),
                rw same (limits.idle_set 5 opened (omega (arith, wide))),
              )
        ]
      ]
