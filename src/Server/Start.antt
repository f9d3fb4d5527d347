-- ===== src/Server/Start.antt =====
-- How `main` of backend/cmd/server/main.go starts, on every branch.
use maelstromhub.Prelude.{
  ◌≡◌, ◌⊎◌, inl, inr, refl, Option, none, some, List, String, All, true, false, [], ◌∷◌, Bool-cases,
  arith,
}
use maelstromhub.Prelude.Int.{ℤ, pos, ltb_ℤ}
use maelstromhub.Ingest.Start.{start, IsTicking}
use maelstromhub.Float.{Float}
use maelstromhub.Config.{Environment, load}
use maelstromhub.Db.{open_postgres}
use maelstromhub.Db.Migrate.{
  Applied, Migrated, Migrated-none, listing, migrations, migrate, migrate-Migrated,
}
use maelstromhub.Server.{
  all_tick, Startup, exits, serves, panics, Setup, assemble, after_migrations, with_pool,
  start_server,
}

all_tick-cases :
    (loops : List (String × ℤ))
    → ((all_tick loops ≡ true) × All IsTicking loops)
      ⊎ ((all_tick loops ≡ false) × (¬ All IsTicking loops))
unfolding all_tick
all_tick-cases [] = inl (refl, tt)
all_tick-cases ((name, interval) ∷ loops) = elim (all_tick-cases loops) [
  | inl (e, h) ↦ elim (Bool-cases (ltb_ℤ (pos 0) interval)) [
    | inl first ↦ inl (rw first e, (ground (arith, first), h))
    | inr first ↦ inr (rw first refl, λ k. absurd (ground (arith, first, k.0)))
  ]
  | inr (e, h) ↦ elim (Bool-cases (ltb_ℤ (pos 0) interval)) [
    | inl first ↦ inr (rw first e, λ k. h k.1)
    | inr first ↦ inr (rw first refl, λ k. h k.1)
  ]
]

module _ {ℓ} {F C P O R DB : Type ℓ} ⦃d : Float F⦄ (setup : Setup C P O R DB)
    (getenv : Environment) where
  -- How the server starts, from the database `db`: it serves where all migrations are applied and each of its loops
  -- gets a ticker, panics where one gets none, and exits where it has no pool, cannot list the migrations, or stops at
  -- one of them.
  pub data IsStarted (db : DB) : DB × Startup F P R → Type ℓ where
    no_pool :
        (e : String)
        → open_postgres setup.postgres (load getenv).postgres_dsn ≡ inl e
        → IsStarted db (db, exits e)
    not_listed :
        (e : String)
        → listing setup.files (getenv "MIGRATIONS_DIR") ≡ inl e
        → IsStarted db (db, exits e)
    not_migrated :
        {files : List String} {db' : DB} (e : String)
        → listing setup.files (getenv "MIGRATIONS_DIR") ≡ inr files
        → Migrated setup.files (migrations setup.files files) db (db', some e)
        → IsStarted db (db', exits e)
    ready :
        {files : List String} {db' : DB} (pool : P)
        → open_postgres setup.postgres (load getenv).postgres_dsn ≡ inr pool
        → listing setup.files (getenv "MIGRATIONS_DIR") ≡ inr files
        → Applied setup.files (migrations setup.files files) db db'
        → All IsTicking (start (load getenv))
        → IsStarted db (db', serves (assemble setup (load getenv) pool))
    no_ticker :
        {files : List String} {db' : DB} (pool : P)
        → open_postgres setup.postgres (load getenv).postgres_dsn ≡ inr pool
        → listing setup.files (getenv "MIGRATIONS_DIR") ≡ inr files
        → Applied setup.files (migrations setup.files files) db db'
        → ¬ All IsTicking (start (load getenv))
        → IsStarted db (db', panics)

  after_migrations-IsStarted :
      (pool : P) (files : List String) (db : DB) (result : DB × Option String)
      → open_postgres setup.postgres (load getenv).postgres_dsn ≡ inr pool
      → listing setup.files (getenv "MIGRATIONS_DIR") ≡ inr files
      → Migrated setup.files (migrations setup.files files) db result
      → IsStarted db (after_migrations setup (load getenv) pool result)
  after_migrations-IsStarted pool files db (db', some e) opened listed migrated =
      not_migrated e listed migrated
  after_migrations-IsStarted pool files db (db', none) opened listed migrated =
      let applied = Migrated-none setup.files migrated in
      elim (all_tick-cases (start (load getenv))) [
        | inl (all, ticking) ↦ rw all (ready pool opened listed applied ticking)
        | inr (some_not, stuck) ↦ rw some_not (no_ticker pool opened listed applied stuck)
      ]

  files-IsStarted :
      (pool : P) (db : DB) (found : String ⊎ List String)
      → open_postgres setup.postgres (load getenv).postgres_dsn ≡ inr pool
      → listing setup.files (getenv "MIGRATIONS_DIR") ≡ found
      → IsStarted db (
          after_migrations setup
            (load getenv)
            pool
            (migrate setup.files (getenv "MIGRATIONS_DIR") db))
  unfolding migrate
  files-IsStarted pool db (inl e) opened listed = rw (migrate, listed) (not_listed e listed)
  files-IsStarted pool db (inr files) opened listed =
      after_migrations-IsStarted pool files db _ opened listed
        (migrate-Migrated setup.files (getenv "MIGRATIONS_DIR") files db listed)

  with_pool-IsStarted :
      (db : DB) (opened : String ⊎ P)
      → open_postgres setup.postgres (load getenv).postgres_dsn ≡ opened
      → IsStarted db (with_pool setup getenv db opened)
  with_pool-IsStarted db (inl e) failed = no_pool e failed
  with_pool-IsStarted db (inr pool) opened = files-IsStarted pool db _ opened refl

  -- The server serves exactly where the pool is opened, every migration is applied, in the order of the names, and the
  -- interval of every loop is positive. Where one is not, the migrations are applied, and a loop panics. In all
  -- other cases it exits: where it has no pool or no list of the files, with an untouched database, else behind
  -- the migrations in front of the first that fails.
  pub start_server-IsStarted : (db : DB) → IsStarted db (start_server setup getenv db)
  unfolding start_server
  start_server-IsStarted db = with_pool-IsStarted db _ refl
