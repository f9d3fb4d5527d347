-- ===== src/Ingest/Mutex.antt =====
-- What the job locks exclude (backend/internal/store/store.go), over the statements of all instances of the
-- server in the order in which the database takes them.
use text.Mathlib.Text.{◌==◌ as str_eq}
use text.Mathlib.TextEquality.{eq_iff}
use maelstromhub.Prelude.{
  ℕ, ◌+◌, ◌<◌, ◌≤◌, ◌≡◌, refl, Bool, true, false, some, List, [], ◌∷◌, String, All, arith, ◌&&◌,
}
use maelstromhub.Prelude.Dict.{lookup, lookup-insert, lookup-remove}
use maelstromhub.Ingest.Locks.{Locks, try_lock, release_lock}

pub data Statement : Type 0 where
  try : ℕ → ℕ → String → Statement
  release : String → Statement

abbrev pub execute : Statement → Locks → Locks × Bool
execute (try now ttl key) locks = try_lock now ttl key locks
execute (release key) locks = (release_lock key locks, false)

-- how often the statements take the lock `key`
abbrev pub is_try : String → Statement → Bool
is_try key (try now ttl k) = str_eq k key
is_try key (release k) = false

abbrev pub one_if : Bool → ℕ
one_if true = 1
one_if false = 0

unfoldable pub taken : String → List Statement → Locks → ℕ
taken key [] locks = 0
taken key (s ∷ ss) locks =
    let (locks', ok) = execute s locks in
    let rest = taken key ss locks' in one_if (ok && is_try key s) + rest

-- The statement is made up to the time `until`, and does not release `key`.
abbrev pub KeepsTo : String → ℕ → Statement → Type 0
KeepsTo key until (try now ttl k) = now ≤ until
KeepsTo key until (release k) = str_eq k key ≡ false

execute-lookup :
    (key : String) (until : ℕ) (s : Statement) (locks : Locks)
    → KeepsTo key until s
    → lookup key locks ≡ some until
    → let (locks', ok) = execute s locks in
      (lookup key locks' ≡ some until) × ((ok && is_try key s) ≡ false)
unfolding try_lock release_lock
execute-lookup key until (try now ttl k) locks h held =
    ground (arith, eq_iff k key, lookup-insert k key (now + ttl) locks)
execute-lookup key until (release k) locks h held = ground (arith, lookup-remove k key locks)

held_taken :
    (key : String) (until : ℕ) (ss : List Statement) (locks : Locks)
    → All (KeepsTo key until) ss
    → lookup key locks ≡ some until
    → taken key ss locks ≡ 0
unfolding taken
held_taken key until [] locks h held = refl
held_taken key until (s ∷ ss) locks (h, hs) held =
    let (held', not_taken) = execute-lookup key until s locks h held in
    ground (arith, held_taken key until ss (execute s locks).0 hs held')

pub try_lock-lookup :
    (now ttl : ℕ) (key : String) (locks : Locks)
    → (try_lock now ttl key locks).1 ≡ true
    → lookup key (try_lock now ttl key locks).0 ≡ some (now + ttl)
unfolding try_lock
try_lock-lookup now ttl key locks h =
    ground (arith, eq_iff key key, lookup-insert key key (now + ttl) locks)

-- Once a lock is taken, no statement of any instance takes it again before its time to live is over, unless
-- one releases it.
pub lock_excludes :
    (now ttl : ℕ) (key : String) (locks : Locks) (ss : List Statement)
    → (try_lock now ttl key locks).1 ≡ true
    → All (KeepsTo key (now + ttl)) ss
    → taken key ss (try_lock now ttl key locks).0 ≡ 0
lock_excludes now ttl key locks ss h keeps =
    held_taken key (now + ttl) ss _ keeps (try_lock-lookup now ttl key locks h)

-- A lock does not know its owner. If a run takes it, a second one takes it after the time to live, and the
-- first one then releases it, a third takes it while the second has it; without that release, it could not.
pub stale_release :
    (first second third ttl : ℕ) (key : String) (locks : Locks)
    → (try_lock first ttl key locks).1 ≡ true
    → first + ttl < second
    → third ≤ second + ttl
    → let (first_has, _) = try_lock first ttl key locks in
      let (second_has, taken_over) = try_lock second ttl key first_has in
      (taken_over ≡ true)
      × ((try_lock third ttl key second_has).1 ≡ false)
      × ((try_lock third ttl key (release_lock key second_has)).1 ≡ true)
unfolding try_lock release_lock
stale_release first second third ttl key locks h late soon =
    let one = (try_lock first ttl key locks).0 in
    let two = (try_lock second ttl key one).0 in
    ground (
      arith,
      eq_iff key key,
      try_lock-lookup first ttl key locks,
      try_lock-lookup second ttl key one,
      lookup-remove key key two,
    )
