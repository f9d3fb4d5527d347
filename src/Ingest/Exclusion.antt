-- ===== src/Ingest/Exclusion.antt =====
-- The runs of one job by all instances of the server (`run` of backend/internal/ingest/scheduler.go), each holding the
-- job's lock of backend/internal/store/store.go for as long as it lasts.
use text.Mathlib.Text.{◌==◌ as str_eq}
use text.Mathlib.TextEquality.{eq_iff}
use maelstromhub.Prelude.{
  ◌∙◌, ℕ, ◌+◌, ◌≤◌, ◌≡◌, true, false, some, List, [], ◌∷◌, ◌++◌, String, All, arith, length,
}
use maelstromhub.Prelude.Dict.{lookup, lookup-insert, lookup-remove}
use maelstromhub.Ingest.Locks.{Locks, try_lock, release_lock}
use maelstromhub.Ingest.Mutex.{Statement, try, release, execute, try_lock-lookup}

-- the locks, the database's clock, and the runs of the job that are going on, each by the time at which it took the
-- lock
pub record Shared : Type 0 where
  pub locks : Locks
  pub now : ℕ
  pub running : List ℕ

abbrev pub shared : Locks → ℕ → List ℕ → Shared
shared locks now running = record { locks = locks; now = now; running = running }

-- The statement is about another lock.
abbrev pub IsOther : String → Statement → Type 0
IsOther name (try now ttl key) = str_eq key name ≡ false
IsOther name (release key) = str_eq key name ≡ false

-- One step: time passes, a run asks for the lock and begins or gives up, a run ends, with or without the lock being
-- released, or something is done to another lock.
pub data Step (name : String) (ttl : ℕ) : Shared → Shared → Type 0 where
  passes :
      (locks : Locks) (now later : ℕ) (running : List ℕ)
      → now ≤ later
      → Step name ttl (shared locks now running) (shared locks later running)
  begins :
      (locks : Locks) (now : ℕ) (running : List ℕ)
      → (try_lock now ttl name locks).1 ≡ true
      → Step name ttl
          (shared locks now running)
          (shared (try_lock now ttl name locks).0 now (now ∷ running))
  gives_up :
      (locks : Locks) (now : ℕ) (running : List ℕ)
      → (try_lock now ttl name locks).1 ≡ false
      → Step name ttl
          (shared locks now running)
          (shared (try_lock now ttl name locks).0 now running)
  ends :
      (locks : Locks) (now since : ℕ) (front back : List ℕ)
      → Step name ttl
          (shared locks now (front ++ (since ∷ back)))
          (shared (release_lock name locks) now (front ++ back))
  ends_unreleased :
      (locks : Locks) (now since : ℕ) (front back : List ℕ)
      → Step name ttl
          (shared locks now (front ++ (since ∷ back)))
          (shared locks now (front ++ back))
  elsewhere :
      (locks : Locks) (now : ℕ) (running : List ℕ) (s : Statement)
      → IsOther name s
      → Step name ttl (shared locks now running) (shared (execute s locks).0 now running)

pub data Run (name : String) (ttl : ℕ) : Shared → Shared → Type 0 where
  here : (s : Shared) → Run name ttl s s
  onward : {s t u : Shared} → Run name ttl s t → Step name ttl t u → Run name ttl s u

-- No run that is going on has taken longer than the lock lives.
abbrev pub IsInTime : ℕ → Shared → Type 0
IsInTime ttl s = All (λ since. s.now ≤ since + ttl) s.running

-- That holds at all times of a run of the system.
abbrev pub IsTimely : {name : String} {ttl : ℕ} {s t : Shared} → Run name ttl s t → Type 0
IsTimely {ttl = ttl} (here s) = IsInTime ttl s
IsTimely {ttl = ttl} (onward {u = u} run step) = IsTimely run × IsInTime ttl u

-- No run is going on, or one that has the lock.
abbrev pub IsExclusive : String → ℕ → Locks → List ℕ → Type 0
IsExclusive name ttl locks [] = Unit
IsExclusive name ttl locks (since ∷ []) = lookup name locks ≡ some (since + ttl)
IsExclusive name ttl locks (since ∷ (other ∷ running)) = ⊥

refused-eq :
    (now ttl : ℕ) (name : String) (locks : Locks)
    → (try_lock now ttl name locks).1 ≡ false
    → (try_lock now ttl name locks).0 ≡ locks
unfolding try_lock
refused-eq now ttl name locks refused = ground arith

held_refuses :
    (now ttl until : ℕ) (name : String) (locks : Locks)
    → lookup name locks ≡ some until
    → now ≤ until
    → (try_lock now ttl name locks).1 ≡ false
unfolding try_lock
held_refuses now ttl until name locks has early = ground arith

execute-other :
    (name : String) (s : Statement) (locks : Locks)
    → IsOther name s
    → lookup name (execute s locks).0 ≡ lookup name locks
unfolding try_lock release_lock
execute-other name (try now ttl key) locks h =
    ground (arith, eq_iff key name, lookup-insert key name (now + ttl) locks)
execute-other name (release key) locks h = ground (arith, lookup-remove key name locks)

-- Where a run ends, none is left.
ends-IsExclusive :
    (name : String) (ttl : ℕ) (locks after : Locks) (front back : List ℕ) (since : ℕ)
    → IsExclusive name ttl locks (front ++ (since ∷ back))
    → IsExclusive name ttl after (front ++ back)
ends-IsExclusive name ttl locks after [] [] since h = tt
ends-IsExclusive name ttl locks after [] (x ∷ back) since h = absurd h
ends-IsExclusive name ttl locks after (x ∷ []) back since h = absurd h
ends-IsExclusive name ttl locks after (x ∷ (y ∷ front)) back since h = absurd h

same_lock-IsExclusive :
    (name : String) (ttl : ℕ) (locks after : Locks) (running : List ℕ)
    → lookup name after ≡ lookup name locks
    → IsExclusive name ttl locks running
    → IsExclusive name ttl after running
same_lock-IsExclusive name ttl locks after [] same h = tt
same_lock-IsExclusive name ttl locks after (since ∷ []) same h = same ∙ h
same_lock-IsExclusive name ttl locks after (since ∷ (x ∷ running)) same h = h

-- Where a run begins while all that are going on are in time, there was none.
begins-IsExclusive :
    (name : String) (ttl now : ℕ) (locks : Locks) (running : List ℕ)
    → IsExclusive name ttl locks running
    → IsInTime ttl (shared locks now running)
    → (try_lock now ttl name locks).1 ≡ true
    → IsExclusive name ttl (try_lock now ttl name locks).0 (now ∷ running)
begins-IsExclusive name ttl now locks [] h in_time taken = try_lock-lookup now ttl name locks taken
begins-IsExclusive name ttl now locks (since ∷ []) h in_time taken =
    let refused = held_refuses now ttl (since + ttl) name locks h in_time.0 in absurd (cc)
begins-IsExclusive name ttl now locks (since ∷ (x ∷ running)) h in_time taken = h

Step-IsExclusive :
    {name : String} {ttl : ℕ} {s t : Shared}
    → Step name ttl s t
    → IsInTime ttl s
    → IsExclusive name ttl s.locks s.running
    → IsExclusive name ttl t.locks t.running
Step-IsExclusive (passes locks now later running k) in_time h = h
Step-IsExclusive {name} {ttl} (begins locks now running taken) in_time h =
    begins-IsExclusive name ttl now locks running h in_time taken
Step-IsExclusive {name} {ttl} (gives_up locks now running refused) in_time h =
    rw (refused-eq now ttl name locks refused) h
Step-IsExclusive {name} {ttl} (ends locks now since front back) in_time h =
    ends-IsExclusive name ttl locks (release_lock name locks) front back since h
Step-IsExclusive {name} {ttl} (ends_unreleased locks now since front back) in_time h =
    ends-IsExclusive name ttl locks locks front back since h
Step-IsExclusive {name} {ttl} (elsewhere locks now running s other) in_time h =
    same_lock-IsExclusive name ttl locks (execute s locks).0 running
      (execute-other name s locks other) h

timely_now :
    {name : String} {ttl : ℕ} {s t : Shared} (run : Run name ttl s t)
    → IsTimely run
    → IsInTime ttl t
timely_now (here s) timely = timely
timely_now (onward run step) (timely, now) = now

Run-IsExclusive :
    {name : String} {ttl : ℕ} {s t : Shared} (run : Run name ttl s t)
    → IsTimely run
    → IsExclusive name ttl s.locks s.running
    → IsExclusive name ttl t.locks t.running
Run-IsExclusive (here s) timely h = h
Run-IsExclusive (onward run step) (timely, now) h =
    Step-IsExclusive step (timely_now run timely) (Run-IsExclusive run timely h)

at_most_one :
    (name : String) (ttl : ℕ) (locks : Locks) (running : List ℕ)
    → IsExclusive name ttl locks running
    → length running ≤ 1
at_most_one name ttl locks [] h = omega arith
at_most_one name ttl locks (since ∷ []) h = omega arith
at_most_one name ttl locks (since ∷ (x ∷ running)) h = absurd h

-- The instances exclude each other: if no run takes longer than its lock lives, then of all runs of one job, by
-- whatever instances, at most one is going on at any time, whatever locks there are to begin with. Runs may
-- fail to release the lock, and the other jobs may do with their locks what they want.
pub runs_exclude :
    (name : String) (ttl now : ℕ) (locks : Locks) {t : Shared}
    → (run : Run name ttl (shared locks now []) t) → IsTimely run
    → length t.running ≤ 1
runs_exclude name ttl now locks {t} run timely =
    at_most_one name ttl t.locks t.running (Run-IsExclusive run timely tt)
