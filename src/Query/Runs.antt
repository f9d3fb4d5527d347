-- ===== src/Query/Runs.antt =====
-- `LatestRuns` of backend/internal/store/query.go: the last run of each job. The table lists the runs from the
-- one that was started last.
use text.Mathlib.Text.{◌==◌ as str_eq}
use maelstromhub.Prelude.{Bool, not, Option, List, [], ◌∷◌, String}
use maelstromhub.Prelude.Sort.{sort_by}
use maelstromhub.Ingest.Locks.{Run}
use maelstromhub.Query.Rows.{rows_where, rows_or}

-- `SELECT DISTINCT ON (job_name)`
unfoldable pub first_of_jobs : List Run → List Run
first_of_jobs [] = []
first_of_jobs (r ∷ rs) =
    r ∷ rows_where (λ (o : Run). not (str_eq o.job_name r.job_name)) (first_of_jobs rs)

unfoldable pub latest_runs :
    (String → String → Bool) → Option String → List Run → List Run × Option String
latest_runs collate err runs =
    rows_or err (sort_by (λ (r o : Run). collate r.job_name o.job_name) (first_of_jobs runs))
