-- ===== src/Api/Status.antt =====
-- What `ingestionStatus` of backend/internal/api/router.go reports after a run of the scheduler.
use text.Mathlib.Text.{◌==◌ as str_eq}
use text.Mathlib.TextEquality.{eq_iff}
use mathlib.Core.List.{Perm}
use maelstromhub.Prelude.{
  ◌≡◌, ◌≢◌, refl, Bool, true, false, not, Option, none, List, ◌∷◌, String, All, All-imp, arith, ap,
  ◌∙◌, map,
}
use maelstromhub.Prelude.Int.{ℤ}
use maelstromhub.Prelude.Sort.{sort_by-perm}
use maelstromhub.Float.{Float}
use maelstromhub.Limiter.{Weighted}
use maelstromhub.Ingest.Locks.{
  try_lock, Run, World, Job, Answers, lock_ttl, status_of, message_of, finish_row, finish_run,
  new_row, start_run, released, finished, run,
}
use maelstromhub.Ingest.Runs.{Takes, run_taken}
use maelstromhub.Store.{Database}
use maelstromhub.Query.Rows.{rows_where, rows_where-passes}
use maelstromhub.Query.Runs.{first_of_jobs, latest_runs}
use maelstromhub.Api.{Libraries, Dependencies, Conditions, ingestion_status}
use maelstromhub.Api.Bodies.{Report, report_body, write_json}

-- the row of a run that has ended
abbrev pub ended_row : String → String → ℤ × Option String → Run
ended_row id name (rows, err) = record {
  id = id;
  job_name = name;
  status = status_of err;
  rows_written = rows;
  error_message = message_of err;
  finished = true;
}

-- The list has the row and, but for it, rows of other jobs.
abbrev pub HasOnly : Run → List Run → Type 0
HasOnly r rows =
    (others : List Run) × Perm rows (r ∷ others) × All (λ o. o.job_name ≢ r.job_name) others

first_of_jobs-HasOnly :
    (collate : String → String → Bool) (r : Run) (rs : List Run)
    → HasOnly r (latest_runs collate none (r ∷ rs)).0
unfolding latest_runs first_of_jobs
first_of_jobs-HasOnly collate r rs =
    let keep : Run → Bool = λ o. not (str_eq o.job_name r.job_name) in
    let others = rows_where keep (first_of_jobs rs) in
    (
      others,
      sort_by-perm (λ (q o : Run). collate q.job_name o.job_name) (r ∷ others),
      All-imp _ _ others (λ o kept. ground (arith, eq_iff o.job_name r.job_name))
          (rows_where-passes keep (first_of_jobs rs)),
    )

finish_new :
    (id name : String) (result : ℤ × Option String)
    → finish_row id (status_of result.1) result.0 (message_of result.1) (new_row id name)
      ≡ ended_row id name result
finish_new id name (rows, err) = ground (arith, eq_iff id id)

module _ {ℓ} {S : Type ℓ} where
  -- The job leaves the run log alone.
  abbrev pub KeepsLog : Job S → Type ℓ
  KeepsLog fn = (w : World S) → (fn w).0.0.ingestion_runs ≡ w.0.ingestion_runs

  released-runs :
      (frees : Bool) (name : String) (w : World S)
      → (released frees name w).0.ingestion_runs ≡ w.0.ingestion_runs
  released-runs true name w = refl
  released-runs false name w = refl

  -- a run that is logged puts its row in front
  run_logged :
      (a : Answers) (name : String) (fn : Job S) (w : World S)
      → KeepsLog fn
      → Takes a name w
      → a.start_error ≡ none
      → a.finishes ≡ true
      → let (after, result) = run a name fn w in
        (rs : List Run) × (after.0.ingestion_runs ≡ ended_row a.id name result ∷ rs)
  unfolding start_run finish_run
  run_logged a name fn w keeps takes starts finishes =
      let locks = (try_lock a.now lock_ttl name w.0.job_locks).0 in
      let started : World S = (start_run a.id name (record w.0 { job_locks = locks }), w.1) in
      let (worked, (rows, err)) = fn started in
      let ended = finish_row a.id (status_of err) rows (message_of err) in
      (
        map ended w.0.ingestion_runs,
        rw
            (
              run_taken a name fn w takes,
              starts,
              finishes,
              released-runs a.releases name (finished true a.id (rows, err) worked),
            )
            (ap (map ended) (keeps started)
              ∙ ap (λ r. r ∷ map ended w.0.ingestion_runs) (finish_new a.id name (rows, err))),
      )

module _ {ℓ} {F : Type ℓ} ⦃d : Float F⦄ where
  -- A run that takes the lock and is logged shows in the status of the ingestion: right after it, where the query
  -- succeeds, the answer has the status 200 and exactly one row of the job, that of this run, with the status, the
  -- rows and the error that the run returns. The job itself leaves the run log alone.
  pub run_reported :
      (lib : Libraries F) (deps : Dependencies) (c : Conditions) (l : Weighted F) (a : Answers)
      (name : String) (fn : Job (Database F)) (w : World (Database F))
      → KeepsLog fn
      → Takes a name w
      → a.start_error ≡ none
      → a.finishes ≡ true
      → c.query_error ≡ none
      → let (after, result) = run a name fn w in
        (r : Report F) × ((ingestion_status lib deps c after.0.ingestion_runs l).1
          ≡ write_json lib.encodes 200 (report_body r))
        × HasOnly (ended_row a.id name result) r.latest_runs
  unfolding ingestion_status latest_runs
  run_reported lib deps c l a name fn w keeps takes starts finishes reads =
      let (rs, logged) = run_logged a name fn w keeps takes starts finishes in
      let result = (run a name fn w).1 in
      let only = first_of_jobs-HasOnly lib.collate (ended_row a.id name result) rs in
      rw (reads, logged) (_, refl, only)
