-- ===== src/Ingest/Summaries.antt =====
-- How `ingestL2Books` (backend/internal/ingest/scheduler.go) ends, over the limiter that the server gives its client.
use maelstromhub.Prelude.{
  ℕ, suc, ◌+◌, ◌≤◌, ◌≡◌, ◌≢◌, refl, Bool, false, Option, none, some, List, [], ◌∷◌, String, length,
  Bool-cases, Option-cases, arith, inl, inr, ◌⊎◌, sym, ◌∙◌, not, ◌&&◌,
}
use maelstromhub.Prelude.Int.{ℤ, pos, leb_ℤ}
use maelstromhub.Float.{Float}
use maelstromhub.Limiter.{Weighted, weight, budget}
use maelstromhub.Limiter.Steps.{poll, run}
use maelstromhub.Limiter.Wait.{
  reserve, Round, Waited, ok, deferred, cancelled, pending, is_granted, wait_loop, leave_queue,
  wait_queued, wait,
}
use maelstromhub.Client.{
  Bytes, Outcome, value, error, Admission, admitted, rejected, waiting, Ended, returned, blocked,
  info,
}
use maelstromhub.Client.Limited.{Gap, admission, weighted_limiter}
use maelstromhub.Client.Requests.{Call, l2_book, Ended-cases}
use maelstromhub.Store.{Database, insert_orderbook_snapshots}
use maelstromhub.Store.Batch.{exec_loop, send_batch}
use maelstromhub.Query.Rows.{rows_or}
use maelstromhub.Query.Coins.{shortlist_coins}
use maelstromhub.Ingest.Books.{L2Book, OrderbookSnapshot, orderbook_snapshot}
use maelstromhub.Ingest.Jobs.{
  JobEnd, done, add_row, fetch_each, write_rows, with_coins, ingest_l2_books,
}

-- Some round finds the context done.
abbrev pub IsLimited : List Round → Type 0
IsLimited [] = ⊥
IsLimited (r ∷ rounds) = (r.done ≡ false) → IsLimited rounds

module _ {ℓ} {F : Type ℓ} ⦃d : Float F⦄ where
  wait_loop_returns :
      (e : String) (w : ℤ) (rounds : List Round) (l : Weighted F)
      → IsLimited rounds
      → (wait_loop e w rounds l).1 ≢ pending
  unfolding wait_loop
  wait_loop_returns e w [] l h = absurd h
  wait_loop_returns e w (r ∷ rounds) l h = elim (Bool-cases (is_granted (poll e w r.now l).1)) [
    | inl pass ↦ rw pass (λ same. cc)
    | inr stays ↦ elim (Bool-cases r.done) [
      | inl ends ↦ rw (stays, ends) (λ same. cc)
      | inr lasts ↦
          rw (stays, lasts)
            (wait_loop_returns e w rounds (run r.others (poll e w r.now l).0) (h lasts))
    ]
  ]

  leave_queue-outcome : (p : Weighted F × Waited) → (leave_queue p).1 ≡ p.1
  unfolding leave_queue
  leave_queue-outcome (l, pending) = refl
  leave_queue-outcome (l, ok) = refl
  leave_queue-outcome (l, deferred) = refl
  leave_queue-outcome (l, cancelled) = refl

  wait_queued_returns :
      (e : String) (w : ℤ) (rounds : List Round) (l : Weighted F)
      → IsLimited rounds
      → (wait_queued e w rounds l).1 ≢ pending
  unfolding wait_queued
  wait_queued_returns e w rounds l h =
      λ same. wait_loop_returns e w rounds _ h (sym (leave_queue-outcome _) ∙ same)

  wait_returns :
      (e : String) (w : ℤ) (critical : Bool) (gap : Gap) (l : Weighted F)
      → IsLimited gap.rounds
      → (wait e w critical gap.start gap.between gap.rounds l).1 ≢ pending
  unfolding wait
  wait_returns e w critical gap l h =
      elim (Bool-cases (not critical && leb_ℤ (budget gap.start l).1 (reserve l))) [
        | inl put_off ↦ rw put_off (λ (same : deferred ≡ pending). cc)
        | inr queues ↦ rw queues (wait_queued_returns e _ gap.rounds _ h)
      ]

admission-waiting : (o : Waited) → o ≢ pending → admission o ≢ waiting
admission-waiting ok h = λ same. cc
admission-waiting deferred h = λ same. cc
admission-waiting cancelled h = λ same. cc
admission-waiting pending h = absurd (h refl)

Admission-cases : (a : Admission) → (a ≡ admitted) ⊎ (a ≡ rejected) ⊎ (a ≡ waiting)
Admission-cases admitted = inl refl
Admission-cases rejected = inr (inl refl)
Admission-cases waiting = inr (inr refl)

module _ {ℓ κ} {F : Type ℓ} ⦃d : Float F⦄ {B : Type κ} (decode : Bytes → Option B) where
  -- A request that the limiter can put off ends, if its context does.
  l2_book_returns :
      (call : Call Gap) (l : Weighted F)
      → IsLimited call.gap.rounds
      → (l2_book weighted_limiter decode false call l).1 ≢ blocked
  unfolding l2_book info
  l2_book_returns call l h =
      let w = weight l "l2Book" (pos 0) in
      let outcome = (wait "l2Book" w false call.gap.start call.gap.between call.gap.rounds l).1 in
      let returns = admission-waiting outcome (wait_returns "l2Book" w false call.gap l h) in
      elim (Admission-cases (admission outcome)) [
        | inl pass ↦ rw pass (λ same. cc)
        | inr (inl refused) ↦ rw refused (λ same. cc)
        | inr (inr waits) ↦ absurd (returns waits)
      ]

-- how many of the calls from `n` on, one for each coin, return a value
abbrev pub one_if_value {ℓ} : {A : Type ℓ} → Ended A → ℕ
one_if_value (returned (value a)) = 1
one_if_value (returned (error e)) = 0
one_if_value blocked = 0

unfoldable pub count_values {ℓ κ} :
    {S : Type ℓ} {A : Type κ} → (ℕ → S → S × Ended A) → ℕ → List String → S → ℕ
count_values fetch n [] s = 0
count_values fetch n (coin ∷ coins) s =
    let (s', ended) = fetch n s in one_if_value ended + count_values fetch (suc n) coins s'

-- These rows were gathered, as many as some number.
abbrev IsGathered {ℓ} : {R : Type ℓ} → ℕ → Option (List R) → Type 0
IsGathered n none = ⊥
IsGathered n (some rows) = length rows ≡ n

module _ {ℓ κ μ} {S : Type ℓ} {A : Type κ} {R : Type μ} (fetch : ℕ → S → S × Ended A)
    (row : ℕ → String → A → R) (free : (n : ℕ) (s : S) → (fetch n s).1 ≢ blocked) where
  add_row-IsGathered :
      (n k : ℕ) (coin : String) (outcome : Outcome A) (rest : S × Option (List R))
      → IsGathered k rest.1
      → IsGathered (one_if_value (returned outcome) + k) (add_row fetch row n coin outcome rest).1
  add_row-IsGathered n k coin (error e) (s, some rows) h = omega (arith, h)
  add_row-IsGathered n k coin (error e) (s, none) h = absurd h
  add_row-IsGathered n k coin (value a) (s, some rows) h = omega (arith, h)
  add_row-IsGathered n k coin (value a) (s, none) h = absurd h

  fetch_each-IsGathered :
      (n : ℕ) (coins : List String) (s : S)
      → IsGathered (count_values fetch n coins s) (fetch_each fetch row n coins s).1
  unfolding fetch_each count_values
  fetch_each-IsGathered n [] s = omega arith
  fetch_each-IsGathered n (coin ∷ coins) s =
      let s' = (fetch n s).0 in
      let later = fetch_each-IsGathered (suc n) coins s' in
      let gathered = λ (outcome : Outcome A).
        add_row-IsGathered n (count_values fetch (suc n) coins s') coin outcome
          (fetch_each fetch row (suc n) coins s') later in
      elim (Ended-cases (fetch n s).1) [
        | inl stuck ↦ absurd (free n s stuck)
        | inr (inl (e, failed)) ↦ rw (fetch_each, failed) (gathered (error e))
        | inr (inr (a, found)) ↦ rw (fetch_each, found) (gathered (value a))
      ]

-- The job returned a count: all of some number without an error, and no more with one.
abbrev pub ReturnsOf : ℕ → JobEnd → Type 0
ReturnsOf n (done count none) = count ≡ n
ReturnsOf n (done count (some e)) = count ≤ n
ReturnsOf n JobEnd.waits = ⊥

exec_loop-ReturnsOf {ℓ} :
    {R : Type ℓ} (answers : ℕ → Option String) (rows : List R) (start n : ℕ)
    → n ≡ start + length rows
    → ReturnsOf n (done (exec_loop answers rows start).0 (exec_loop answers rows start).1)
unfolding exec_loop
exec_loop-ReturnsOf answers [] start n e = omega (arith, e)
exec_loop-ReturnsOf answers (row ∷ rows) start n e = elim (Option-cases (answers start)) [
  | inl accepted ↦
      rw (exec_loop, accepted) (exec_loop-ReturnsOf answers rows (suc start) n (omega (arith, e)))
  | inr (err, refused) ↦ rw (exec_loop, refused) (omega (arith, e))
]

module _ {ℓ κ} {S : Type ℓ} {F : Type κ} where
  write_rows-ReturnsOf :
      (answers : ℕ → Option String) (n : ℕ) (db : Database F) (s : S)
      (rows : Option (List (OrderbookSnapshot F)))
      → IsGathered n rows
      → ReturnsOf n (write_rows (insert_orderbook_snapshots answers) db (s, rows)).1
  unfolding insert_orderbook_snapshots send_batch
  write_rows-ReturnsOf answers n db s none h = absurd h
  write_rows-ReturnsOf answers n db s (some rows) h =
      exec_loop-ReturnsOf answers rows 0 n (omega (arith, h))

module _ {ℓ} {F : Type ℓ} ⦃d : Float F⦄ (calls : ℕ → Call Gap)
    (decode : Bytes → Option (L2Book F)) where
  -- the calls of the job, over the server's limiter
  abbrev pub book_calls : ℕ → Weighted F → Weighted F × Ended (L2Book F)
  book_calls n = l2_book weighted_limiter decode false (calls n)

  with_coins-ReturnsOf :
      (job : List String → (Weighted F × Database F) × JobEnd) (w : Weighted F × Database F)
      (l : Weighted F) (err : Option String) (coins : List String)
      → ((coins : List String) → ReturnsOf (count_values book_calls 0 coins l) (job coins).1)
      → ReturnsOf
          (count_values book_calls 0 (rows_or err coins).0 l)
          (with_coins job w (rows_or err coins)).1
  unfolding count_values
  with_coins-ReturnsOf job w l none coins h = h coins
  with_coins-ReturnsOf job w l (some e) coins h = omega arith

  -- If every `Wait` for the limiter is seen until its context is done, the job for the order books returns, whatever
  -- the limiter's state, the exchange and the database are. Without an error, its count is the number of the coins
  -- of the shortlist whose order book the exchange has given, those behind a failed call included. With an error,
  -- the count is no more than that.
  pub ingest_l2_books_returns :
      (collate : String → String → Bool) (query_error : Option String) (answers : ℕ → Option String)
      (size : ℤ) (clock : ℕ → ℕ) (l : Weighted F) (db : Database F)
      → ((n : ℕ) → IsLimited (calls n).gap.rounds)
      → ReturnsOf
          (count_values book_calls 0 (shortlist_coins collate query_error size db).0 l)
          (ingest_l2_books weighted_limiter calls collate query_error decode answers size clock
            (l, db)).1
  unfolding ingest_l2_books shortlist_coins
  ingest_l2_books_returns collate query_error answers size clock l db limited =
      let free = λ (n : ℕ) (s : Weighted F). l2_book_returns decode (calls n) s (limited n) in
      let row = λ (n : ℕ). orderbook_snapshot (clock n) in
      let job = λ (coins : List String).
        write_rows (insert_orderbook_snapshots answers) db (fetch_each book_calls row 0 coins l) in
      with_coins-ReturnsOf job (l, db) l query_error _
        (λ coins.
          write_rows-ReturnsOf answers (count_values book_calls 0 coins l) db
            (fetch_each book_calls row 0 coins l).0 (fetch_each book_calls row 0 coins l).1
            (fetch_each-IsGathered book_calls row free 0 coins l))
