-- ===== src/Db.antt =====
-- backend/internal/db: the connections to the databases (db.go) and the migrations (migrate.go).
--
-- The libraries of PostgreSQL and Redis are parameters: what they make of an address, and of a configuration.
pub mod Migrate
use maelstromhub.Prelude.{ℕ, ◌⊎◌, inl, inr, String}
use maelstromhub.Query.Pool.{max_conns}

-- `pgxpool.ParseConfig`, the field `MaxConns`, and `pgxpool.NewWithConfig`
pub record Postgres {ℓ κ} (C : Type ℓ) (P : Type κ) : Type (ℓ ⊔ κ) where
  pub parse_config : String → String ⊎ C
  pub with_max_conns : ℕ → C → C
  pub new_with_config : C → String ⊎ P

-- `redis.ParseURL`, the options with an address, and `redis.NewClient`
pub record Redis {ℓ κ} (O : Type ℓ) (R : Type κ) : Type (ℓ ⊔ κ) where
  pub parse_url : String → String ⊎ O
  pub with_addr : String → O
  pub new_client : O → R

-- `Open`: a pool, or an error
unfoldable pub open_postgres {ℓ κ} : {C : Type ℓ} {P : Type κ} → Postgres C P → String → String ⊎ P
open_postgres pg dsn = elim (pg.parse_config dsn) [
  | inl e ↦ inl e
  | inr cfg ↦ pg.new_with_config (pg.with_max_conns max_conns cfg)
]

-- `OpenRedis`, which takes the address of the setup where the URL is none
unfoldable pub open_redis {ℓ κ} : {O : Type ℓ} {R : Type κ} → Redis O R → String → R
open_redis redis url = elim (redis.parse_url url) [
  | inl e ↦ redis.new_client (redis.with_addr "redis:6379")
  | inr opts ↦ redis.new_client opts
]
