-- ===== src/Server.antt =====
-- `main` of backend/cmd/server/main.go: how the server is put together when it starts.
pub mod Start
pub mod Shutdown
mod Examples
use maelstromhub.Prelude.{
  ℕ, ◌≡◌, ◌⊎◌, inl, inr, refl, Option, none, some, List, String, ap, ◌∙◌, Bool, true, [], ◌∷◌, ◌&&◌,
  if◌then◌else◌,
}
use maelstromhub.Prelude.Sort.{sort_by}
use maelstromhub.Float.{Float}
use maelstromhub.Limiter.{Weighted, new}
use maelstromhub.Config.{Environment, Config, load}
use maelstromhub.Config.Weights.{limiter_config}
use maelstromhub.Client.New.{Client, client_config, new_client}
use maelstromhub.Prelude.Int.{ℤ, pos, ltb_ℤ}
use maelstromhub.Ingest.Start.{start}
use maelstromhub.Ingest.Stop.{Group, started}
use maelstromhub.Api.{Dependencies}
use maelstromhub.Db.{Postgres, Redis, open_postgres, open_redis}
use maelstromhub.Db.Migrate.{System, migrate}

-- what `main` has made when it starts to serve: `P` is the pool and `R` the client of Redis
pub record Server {ℓ} (F P R : Type ℓ) : Type ℓ where
  pub pool : P
  pub cache : R
  pub limiter : Weighted F
  pub client : Client
  pub loops : Group
  pub deps : Dependencies
  pub addr : String

-- The process exits with the status 1, with the error that is logged, or it has its loops and serves, or one of its
-- loops panics when it makes its ticker. The panic is that of a goroutine: it ends the process, at the latest when
-- the goroutine has come to its first statement.
pub data Startup {ℓ} (F P R : Type ℓ) : Type ℓ where
  exits : String → Startup F P R
  serves : Server F P R → Startup F P R
  panics : Startup F P R

-- `time.NewTicker` panics for none of the loops.
unfoldable pub all_tick : List (String × ℤ) → Bool
all_tick [] = true
all_tick (named ∷ loops) = ltb_ℤ (pos 0) named.1 && all_tick loops

-- the libraries, and the readings of the clock by `NewWeighted`, by `NewScheduler` and for `StartedAt`
pub record Setup {ℓ} (C P O R DB : Type ℓ) : Type ℓ where
  pub postgres : Postgres C P
  pub redis : Redis O R
  pub files : System DB
  pub limiter_at : ℕ
  pub scheduler_at : ℕ
  pub started_at : ℕ

module _ {ℓ} {F C P O R DB : Type ℓ} ⦃d : Float F⦄ (setup : Setup C P O R DB) where
  -- `main` behind the migrations, up to the handler
  unfoldable pub assemble : Config → P → Server F P R
  assemble cfg pool = record {
    pool = pool;
    cache = open_redis setup.redis cfg.redis_url;
    limiter = new (limiter_config cfg) setup.limiter_at;
    client = new_client (client_config cfg);
    loops = started cfg;
    deps = record {
      config = cfg;
      scheduler_started = setup.scheduler_at;
      started_at = setup.started_at;
    };
    addr = cfg.http_addr;
  }

  abbrev pub after_migrations : Config → P → DB × Option String → DB × Startup F P R
  after_migrations cfg pool (db, some e) = (db, exits e)
  after_migrations cfg pool (db, none) =
      (db, if all_tick (start cfg) then serves (assemble cfg pool) else panics)

  abbrev pub with_pool : Environment → DB → String ⊎ P → DB × Startup F P R
  with_pool getenv db (inl e) = (db, exits e)
  with_pool getenv db (inr pool) =
      after_migrations (load getenv) pool (migrate setup.files (getenv "MIGRATIONS_DIR") db)

  -- `main` up to the point where it serves
  unfoldable pub start_server : Environment → DB → DB × Startup F P R
  start_server getenv db =
      with_pool getenv db (open_postgres setup.postgres (load getenv).postgres_dsn)
