-- ===== src/Ingest/Locks.antt =====
-- The job locks and the run log of backend/internal/store/store.go: `TryLock`, `ReleaseLock`, `StartRun` and
-- `FinishRun`, and the scheduler's `run` and `loop` (backend/internal/ingest/scheduler.go) over them.
--
-- A table is what its SQL statements do to it: `job_locks` maps a key to `locked_until`, and
-- `ingestion_runs` lists its rows. The database's `now()` is a number of nanoseconds.
use text.Mathlib.Text.{◌==◌ as str_eq}
use maelstromhub.Prelude.{
  ℕ, ◌+◌, ◌*◌, Bool, true, false, Option, none, some, List, [], ◌∷◌, String, map, ltb,
  if◌then◌else◌,
}
use maelstromhub.Prelude.Int.{ℤ, pos}
use maelstromhub.Prelude.Dict.{Dict, lookup, insert, remove}

abbrev pub Locks : Type 0
Locks = Dict ℕ

-- `TryLock`, where the statement succeeds: a row is inserted, or one that has run out is renewed.
unfoldable pub try_lock : ℕ → ℕ → String → Locks → Locks × Bool
try_lock now ttl key locks = elim (lookup key locks) [
  | none ↦ (insert key (now + ttl) locks, true)
  | some until ↦ if ltb until now then (insert key (now + ttl) locks, true) else (locks, false)
]

-- `ReleaseLock`, where the statement succeeds
unfoldable pub release_lock : String → Locks → Locks
release_lock key locks = remove key locks

-- a row of `ingestion_runs`; `finished` is whether `finished_at` is set
pub record Run : Type 0 where
  pub id : String
  pub job_name : String
  pub status : String
  pub rows_written : ℤ
  pub error_message : String
  pub finished : Bool

pub record Tables : Type 0 where
  pub job_locks : Locks
  pub ingestion_runs : List Run

abbrev pub new_row : String → String → Run
new_row id job = record {
  id = id;
  job_name = job;
  status = "running";
  rows_written = pos 0;
  error_message = "";
  finished = false;
}

-- `StartRun`, with the id that the database makes up
unfoldable pub start_run : String → String → Tables → Tables
start_run id job t = record t { ingestion_runs = new_row id job ∷ t.ingestion_runs }

abbrev pub finish_row : String → String → ℤ → String → Run → Run
finish_row id status rows message r =
    if str_eq r.id id
    then record r { status = status; rows_written = rows; error_message = message; finished = true }
    else r

-- `FinishRun`, where the statement succeeds
unfoldable pub finish_run : String → String → ℤ → String → Tables → Tables
finish_run id status rows message t = record t {
  ingestion_runs = map (finish_row id status rows message) t.ingestion_runs;
}

-- What the database answers in one `run`. A statement that fails changes nothing.
pub record Answers : Type 0 where
  pub now : ℕ
  pub lock_error : Option String
  pub start_error : Option String
  pub id : String
  pub finishes : Bool
  pub releases : Bool

-- the world of a job: the tables, and what else the job works on
abbrev pub World {ℓ} : Type ℓ → Type ℓ
World S = Tables × S

-- `fn(ctx)`
abbrev pub Job {ℓ} : Type ℓ → Type ℓ
Job S = World S → World S × (ℤ × Option String)

-- `10*time.Minute`
abbrev pub lock_ttl : ℕ
lock_ttl = 600 * 1_000_000_000

abbrev pub status_of : Option String → String
status_of none = "succeeded"
status_of (some e) = "failed"

abbrev pub message_of : Option String → String
message_of none = ""
message_of (some e) = e

module _ {ℓ} {S : Type ℓ} where
  -- the deferred call of `ReleaseLock`
  abbrev pub released : Bool → String → World S → World S
  released false name (t, s) = (t, s)
  released true name (t, s) = (record t { job_locks = release_lock name t.job_locks }, s)

  abbrev pub finished : Bool → String → ℤ × Option String → World S → World S
  finished false id (rows, err) (t, s) = (t, s)
  finished true id (rows, err) (t, s) = (finish_run id (status_of err) rows (message_of err) t, s)

  -- `run` once it has the lock
  abbrev pub run_locked : Answers → String → Job S → World S → World S × (ℤ × Option String)
  run_locked a name fn (t, s) = elim a.start_error [
    | some e ↦ (released a.releases name (t, s), (pos 0, some e))
    | none ↦
        (let (w, result) = fn (start_run a.id name t, s) in
          (released a.releases name (finished a.finishes a.id result w), result))
  ]

  -- `run`
  unfoldable pub run : Answers → String → Job S → World S → World S × (ℤ × Option String)
  run a name fn (t, s) = elim a.lock_error [
    | some e ↦ ((t, s), (pos 0, some e))
    | none ↦
        (let (locks, ok) = try_lock a.now lock_ttl name t.job_locks in
          if ok
          then run_locked a name fn (record t { job_locks = locks }, s)
          else ((t, s), (pos 0, none)))
  ]

-- One turn of `loop`: what the database answers, and whether the context is done before the next tick.
pub record Turn : Type 0 where
  pub answers : Answers
  pub done : Bool

abbrev pub after_turn {ℓ} : {A : Type ℓ} → Bool → A → A → A
after_turn true ended on = ended
after_turn false ended on = on

module _ {ℓ} {S : Type ℓ} where
  -- the goroutine of `loop`, for as long as its environment lasts
  unfoldable pub loop : List Turn → String → Job S → World S → World S
  loop [] name fn w = w
  loop (turn ∷ turns) name fn w =
      let w' = (run turn.answers name fn w).0 in
      let rest = loop turns name fn w' in after_turn turn.done w' rest
