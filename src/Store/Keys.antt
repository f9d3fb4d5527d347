-- ===== src/Store/Keys.antt =====
-- The equality of the primary keys (backend/migrations/001_init.sql) that two columns or more make up.
use text.Mathlib.TextEquality.{eq_iff}
use maelstromhub.Prelude.{ℕ, ◌≡◌, ◌↔◌, true, String, arith}
use maelstromhub.Store.{same_moment, same_bar}

pub same_moment_iff : (j k : String × ℕ) → (same_moment j k ≡ true) ↔ (j ≡ k)
same_moment_iff (coin, time) (coin', time') = ground (arith, eq_iff coin coin')

pub same_bar_iff : (j k : String × String × ℕ) → (same_bar j k ≡ true) ↔ (j ≡ k)
same_bar_iff (coin, interval, time) (coin', interval', time') =
    ground (arith, eq_iff coin coin', eq_iff interval interval')
