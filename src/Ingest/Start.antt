-- ===== src/Ingest/Start.antt =====
-- `Start` and `Status` of backend/internal/ingest/scheduler.go: the loops that the scheduler starts, and what it says
-- of itself.
--
-- `time.NewTicker`, which every loop calls first, panics unless its interval is positive; a panic of a loop
-- ends the server.
use maelstromhub.Prelude.{
  ℕ, ◌+◌, ◌*◌, ◌≤◌, ◌<◌, ◌≡◌, ◌↔◌, Bool, true, List, [], ◌∷◌, String, if◌then◌else◌, All, arith,
}
use maelstromhub.Prelude.Int.{ℤ, pos, negsuc, ◌<ℤ◌, ◌*ℤ◌, int64, int64-pos}
use maelstromhub.Config.{Config, Environment, env_int, env_bool, seconds_of, load}

abbrev pub minutes : ℕ → ℤ
minutes n = pos (n * 60 * 1_000_000_000)

-- the name and the interval of each loop
unfoldable pub start : Config → List (String × ℤ)
start cfg =
    if cfg.scheduler_enabled
    then ("tier1_meta", cfg.tier1_meta_interval)
      ∷ ("tier1_mids", cfg.tier1_mids_interval)
      ∷ ("candles", minutes 2)
      ∷ ("features", minutes 3)
      ∷ ("l2book", cfg.l2_book_interval)
      ∷ ("recent_trades", cfg.recent_trades_interval)
      ∷ []
    else []

pub record SchedulerStatus : Type 0 where
  pub enabled : Bool
  pub started_at : ℕ
  pub shortlist_size : ℤ

-- `Status`, with the time at which `NewScheduler` was called
unfoldable pub scheduler_status : Config → ℕ → SchedulerStatus
scheduler_status cfg started = record {
  enabled = cfg.scheduler_enabled;
  started_at = started;
  shortlist_size = cfg.shortlist_size;
}

-- `time.NewTicker` does not panic.
abbrev pub IsTicking : String × ℤ → Type 0
IsTicking (name, interval) = pos 0 <ℤ interval

-- as many seconds, of either sign, as a `Duration` has room for
abbrev pub HasRoom : ℤ → Type 0
HasRoom (pos n) = n ≤ 9_223_372_036
HasRoom (negsuc n) = n < 9_223_372_036

seconds_of-pos : (n : ℕ) → n ≤ 9_223_372_036 → seconds_of (pos n) ≡ pos (n * 1_000_000_000)
unfolding seconds_of ◌*ℤ◌
seconds_of-pos n h =
    let exact : pos n *ℤ pos 1_000_000_000 ≡ pos (n * 1_000_000_000) = ground arith in
    rw (seconds_of, exact) (int64-pos (n * 1_000_000_000) (omega (arith, h)))

seconds_of-negsuc :
    (n : ℕ) → n < 9_223_372_036 → seconds_of (negsuc n) ≡ negsuc (n * 1_000_000_000 + 999_999_999)
unfolding seconds_of int64 ◌*ℤ◌
seconds_of-negsuc n h =
    let exact : negsuc n *ℤ pos 1_000_000_000 ≡ negsuc (n * 1_000_000_000 + 999_999_999) =
      ground arith in
    rw (seconds_of, exact) (ground (arith, h))

seconds_of_iff : (n : ℤ) → HasRoom n → (pos 0 <ℤ seconds_of n) ↔ (pos 0 <ℤ n)
seconds_of_iff (pos n) h = rw (seconds_of-pos n h) (λ k. omega arith, λ k. omega arith)
seconds_of_iff (negsuc n) h =
    rw (seconds_of-negsuc n h) (λ k. absurd (omega arith), λ k. absurd (omega arith))

-- the four intervals of the environment, in seconds
abbrev pub settings : Environment → List ℤ
settings getenv =
    env_int getenv "TIER1_META_INTERVAL_SECONDS" (pos 45)
    ∷ env_int getenv "TIER1_MIDS_INTERVAL_SECONDS" (pos 20)
    ∷ env_int getenv "L2BOOK_INTERVAL_SECONDS" (pos 60)
    ∷ env_int getenv "RECENT_TRADES_INTERVAL_SECONDS" (pos 60)
    ∷ []

-- Where the scheduler is enabled and the four intervals of the environment fit a `Duration`, all its loops get a
-- ticker exactly if the four are positive. So an interval of 0 ends the server at its start.
pub start_iff :
    (getenv : Environment)
    → env_bool getenv "SCHEDULER_ENABLED" true ≡ true
    → All HasRoom (settings getenv)
    → All IsTicking (start (load getenv)) ↔ All (λ n. pos 0 <ℤ n) (settings getenv)
unfolding start load
start_iff getenv enabled room =
    let (meta_to, meta_of) = seconds_of_iff _ room.0 in
    let (mids_to, mids_of) = seconds_of_iff _ room.1.0 in
    let (book_to, book_of) = seconds_of_iff _ room.1.1.0 in
    let (trades_to, trades_of) = seconds_of_iff _ room.1.1.1.0 in
    rw (start, enabled)
      (
        λ h. (meta_to h.0, (mids_to h.1.0, (book_to h.1.1.1.1.0, (trades_to h.1.1.1.1.1.0, tt)))),
        λ h. (
          meta_of h.0,
          (
            mids_of h.1.0,
            (omega arith, (omega arith, (book_of h.1.1.0, (trades_of h.1.1.1.0, tt)))),
          ),
        ),
      )
