-- ===== src/Store/Batch.antt =====
-- A batch of upserts, as the write methods of backend/internal/store/store.go send it: one statement for each
-- row, then a loop over the answers. PostgreSQL runs a batch of pgx in one transaction, so a statement that is
-- refused undoes the others.
use mathlib.Core.List.{foldl}
use native.Mathlib.Decide.{ℕ_discrete}
use Prim.Native.String.{String}
use maelstromhub.Prelude.{
  ℕ, suc, ◌+◌, ◌≤◌, ◌<◌, ◌≡◌, Option, none, some, List, [], ◌∷◌, length, arith, ◌∙◌, ap,
}

-- The loop over `br.Exec()`: `answers i` is the error of the statement `i`, if there is one.
unfoldable pub exec_loop {ℓ} : {R : Type ℓ} → (ℕ → Option String) → List R → ℕ → ℕ × Option String
exec_loop answers [] count = (count, none)
exec_loop answers (row ∷ rows) count = elim (answers count) [
  | none ↦ exec_loop answers rows (suc count)
  | some e ↦ (count, some e)
]

abbrev pub commit {ℓ} : {T : Type ℓ} → Option String → T → T → T
commit none after before = after
commit (some e) after before = before

-- one write method: what it leaves of a table, the count and the error
unfoldable pub send_batch {ℓ κ} :
    {R : Type ℓ} {T : Type κ}
    → (T → R → T)
    → (ℕ → Option String)
    → List R
    → T
    → T × (ℕ × Option String)
send_batch put answers rows table =
    let (count, err) = exec_loop answers rows 0 in
    (commit err (foldl put table rows) table, (count, err))

-- The statement `i` is the first that is refused, and `e` is its error.
pub record FailsFirst (answers : ℕ → Option String) (start i : ℕ) (e : String) : Type 0 where
  pub from : start ≤ i
  pub refused : answers i ≡ some e
  pub before : (j : ℕ) → start ≤ j → j < i → answers j ≡ none

module _ {ℓ} {R : Type ℓ} (answers : ℕ → Option String) where
  exec_loop_refused :
      (rows : List R) (start i : ℕ) (e : String)
      → i < start + length rows
      → FailsFirst answers start i e
      → exec_loop answers rows start ≡ (i, some e)
  unfolding exec_loop
  exec_loop_refused [] start i e bound first = absurd (omega (arith, first.from))
  exec_loop_refused (row ∷ rows) start i e bound first = elim (ℕ_discrete start i) [
    | yes here ↦ ground (arith, first.refused)
    | no later ↦
        let from : suc start ≤ i = omega (arith, first.from) in
        rw (exec_loop, first.before start (omega arith) (omega arith))
          (exec_loop_refused rows (suc start) i e (omega arith) (record {
            from = from;
            refused = first.refused;
            before = λ j h k. first.before j (omega arith) k;
          }))
  ]

  exec_loop_accepted :
      (rows : List R) (start : ℕ)
      → ((j : ℕ) → start ≤ j → j < start + length rows → answers j ≡ none)
      → exec_loop answers rows start ≡ (start + length rows, none)
  unfolding exec_loop
  exec_loop_accepted [] start all = ap (λ (n : ℕ). (n, none)) (omega arith)
  exec_loop_accepted (row ∷ rows) start all =
      rw (exec_loop, all start (omega arith) (omega arith))
        (exec_loop_accepted rows (suc start) (λ j h k. all j (omega arith) (omega arith))
          ∙ ap (λ (n : ℕ). (n, none)) (omega arith))

module _ {ℓ κ} {R : Type ℓ} {T : Type κ} (put : T → R → T) (answers : ℕ → Option String) where
  -- If all statements of a batch are accepted, all its rows are written, and their number is returned.
  pub send_batch_accepted :
      (rows : List R) (table : T)
      → ((j : ℕ) → j < length rows → answers j ≡ none)
      → send_batch put answers rows table ≡ (foldl put table rows, (length rows, none))
  unfolding send_batch
  send_batch_accepted rows table all =
      rw (exec_loop_accepted answers rows 0 (λ j h k. all j (omega arith)))
        (ap (λ (n : ℕ). (foldl put table rows, (n, none))) (omega arith))

  -- If a statement of a batch is refused, the first such, `i`, decides: the method returns its error and the
  -- count `i`, but none of the rows is in the table.
  pub send_batch_refused :
      (rows : List R) (table : T) (i : ℕ) (e : String)
      → i < length rows
      → FailsFirst answers 0 i e
      → send_batch put answers rows table ≡ (table, (i, some e))
  unfolding send_batch
  send_batch_refused rows table i e bound first =
      rw (exec_loop_refused answers rows 0 i e (omega arith) first)
