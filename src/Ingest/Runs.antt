-- ===== src/Ingest/Runs.antt =====
-- The outcome of a scheduled run, and of the loop of runs (backend/internal/ingest/scheduler.go).
use text.Mathlib.TextEquality.{eq_iff}
use maelstromhub.Prelude.{
  ℕ, ◌≤◌, ◌≡◌, refl, true, Option, none, some, List, [], ◌∷◌, String, All, arith, map,
}
use maelstromhub.Prelude.Int.{ℤ, pos}
use maelstromhub.Prelude.Dict.{lookup, lookup-remove}
use maelstromhub.Ingest.Locks.{
  try_lock, release_lock, Run, World, Job, Answers, Turn, lock_ttl, status_of, message_of,
  finish_row, finish_run, start_run, released, finished, run_locked, run, loop,
}

-- Every row of the run says how its job ended.
abbrev pub IsLogged : String → ℤ × Option String → Run → Type 0
IsLogged id (rows, err) r =
    r.id ≡ id
    → (r.finished ≡ true)
      × (r.status ≡ status_of err)
      × (r.rows_written ≡ rows)
      × (r.error_message ≡ message_of err)

finish_row-IsLogged :
    (id : String) (rows : ℤ) (err : Option String) (r : Run)
    → IsLogged id (rows, err) (finish_row id (status_of err) rows (message_of err) r)
finish_row-IsLogged id rows err r h = ground (arith, eq_iff r.id id)

finish_rows-IsLogged :
    (id : String) (rows : ℤ) (err : Option String) (rs : List Run)
    → All (IsLogged id (rows, err)) (map (finish_row id (status_of err) rows (message_of err)) rs)
finish_rows-IsLogged id rows err [] = tt
finish_rows-IsLogged id rows err (r ∷ rs) =
    (finish_row-IsLogged id rows err r, finish_rows-IsLogged id rows err rs)

module _ {ℓ} {S : Type ℓ} where
  -- The run takes the lock.
  abbrev pub Takes : Answers → String → World S → Type 0
  Takes a name w = (a.lock_error ≡ none) × ((try_lock a.now lock_ttl name w.0.job_locks).1 ≡ true)

  released_lem :
      (name : String) (w : World S)
      → (lookup name (released true name w).0.job_locks ≡ none)
        × ((released true name w).0.ingestion_runs ≡ w.0.ingestion_runs)
        × ((released true name w).1 ≡ w.1)
  unfolding release_lock
  released_lem name w =
      (ground (arith, eq_iff name name, lookup-remove name name w.0.job_locks), refl, refl)

  pub run_taken :
      (a : Answers) (name : String) (fn : Job S) (w : World S)
      → Takes a name w
      → run a name fn w
        ≡ run_locked a name fn
            (record w.0 { job_locks = (try_lock a.now lock_ttl name w.0.job_locks).0 }, w.1)
  unfolding run
  run_taken a name fn w (no_error, ok) = rw (no_error, ok)

  -- A run that takes the lock and whose statements succeed frees it again, returns what the job returns, and
  -- leaves each row of the run with the end of the job: finished, with its status, its rows and its error.
  -- It works on the tables in which the lock is taken and the run is started.
  pub run_completes :
      (a : Answers) (name : String) (fn : Job S) (w : World S)
      → Takes a name w
      → a.start_error ≡ none
      → a.finishes ≡ true
      → a.releases ≡ true
      → let locks = (try_lock a.now lock_ttl name w.0.job_locks).0 in
        let (worked, result) = fn (start_run a.id name (record w.0 { job_locks = locks }), w.1) in
        let (after, returned) = run a name fn w in
        (returned ≡ result)
        × (after.1 ≡ worked.1)
        × (lookup name after.0.job_locks ≡ none)
        × All (IsLogged a.id result) after.0.ingestion_runs
  unfolding finish_run
  run_completes a name fn w takes starts finishes releases =
      let locks = (try_lock a.now lock_ttl name w.0.job_locks).0 in
      let (worked, result) = fn (start_run a.id name (record w.0 { job_locks = locks }), w.1) in
      let (free, _, _) = released_lem name (finished true a.id result worked) in
      rw (run_taken a name fn w takes, starts, finishes, releases)
        (refl, refl, free, finish_rows-IsLogged a.id result.0 result.1 worked.0.ingestion_runs)

  -- A run that fails to be logged does not run its job, and frees the lock.
  pub run_not_started :
      (a : Answers) (name : String) (fn : Job S) (w : World S) (e : String)
      → Takes a name w
      → a.start_error ≡ some e
      → a.releases ≡ true
      → let (after, returned) = run a name fn w in
        (returned ≡ (pos 0, some e))
        × (after.1 ≡ w.1)
        × (lookup name after.0.job_locks ≡ none)
        × (after.0.ingestion_runs ≡ w.0.ingestion_runs)
  run_not_started a name fn w e takes fails releases =
      let locks = (try_lock a.now lock_ttl name w.0.job_locks).0 in
      let (free, same, kept) = released_lem name (record w.0 { job_locks = locks }, w.1) in
      rw (run_taken a name fn w takes, fails, releases) (refl, kept, free, same)

  run_held :
      (a : Answers) (name : String) (fn : Job S) (w : World S) (until : ℕ)
      → lookup name w.0.job_locks ≡ some until
      → a.now ≤ until
      → (run a name fn w).0 ≡ w
  unfolding run try_lock
  run_held a name fn w until held early = ground arith

  -- A lock that is held stops the job: as long as the turns of a loop come before it runs out, no turn runs
  -- the job or changes anything.
  pub loop_held :
      (turns : List Turn) (name : String) (fn : Job S) (w : World S) (until : ℕ)
      → lookup name w.0.job_locks ≡ some until
      → All (λ (turn : Turn). turn.answers.now ≤ until) turns
      → loop turns name fn w ≡ w
  unfolding loop
  loop_held [] name fn w until held early = refl
  loop_held (turn ∷ turns) name fn w until held (h, hs) =
      let same = run_held turn.answers name fn w until held h in
      rw same (ground (arith, loop_held turns name fn w until held hs))
