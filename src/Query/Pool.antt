-- ===== src/Query/Pool.antt =====
-- The connections that `ListMarkets` of backend/internal/store/query.go holds: it asks for the flags of each
-- row while its own rows are open, so it needs two connections of the pool. backend/internal/db/db.go gives the
-- pool twelve of them. A call waits until a connection is free.
--
-- Only calls of `ListMarkets` are counted, and no client goes away.
use maelstromhub.Prelude.{ℕ, zero, suc, ◌+◌, ◌*◌, ◌≡◌, ◌<◌, ◌↔◌, refl, ap, arith}

-- `cfg.MaxConns`
abbrev pub max_conns : ℕ
max_conns = 12

-- The free connections, and the calls with open rows: those at a row whose flags they ask for, those at a row
-- whose flags are being read, and those that are past the last row.
pub record Pool : Type 0 where
  pub free : ℕ
  pub asking : ℕ
  pub reading : ℕ
  pub past : ℕ

abbrev pub pool : ℕ → ℕ → ℕ → ℕ → Pool
pool free asking reading past = record {
  free = free;
  asking = asking;
  reading = reading;
  past = past;
}

-- One step of some call: its query gives a row or none, the query for flags begins or ends (with another row
-- after it or none), and the rows are closed.
pub data Step : Pool → Pool → Type 0 where
  first_row : (f a r p : ℕ) → Step (pool (suc f) a r p) (pool f (suc a) r p)
  no_row : (f a r p : ℕ) → Step (pool (suc f) a r p) (pool f a r (suc p))
  flags_begin : (f a r p : ℕ) → Step (pool (suc f) (suc a) r p) (pool f a (suc r) p)
  next_row : (f a r p : ℕ) → Step (pool f a (suc r) p) (pool (suc f) (suc a) r p)
  last_row : (f a r p : ℕ) → Step (pool f a (suc r) p) (pool (suc f) a r (suc p))
  close : (f a r p : ℕ) → Step (pool f a r (suc p)) (pool (suc f) a r p)

pub data Run : Pool → Pool → Type 0 where
  here : (p : Pool) → Run p p
  then : {p q s : Pool} → Run p q → Step q s → Run p s

-- the connections in use and free
abbrev size : Pool → ℕ
size p = p.free + p.asking + 2 * p.reading + p.past

Step-size : {p q : Pool} → Step p q → size q ≡ size p
Step-size (first_row f a r p) = omega arith
Step-size (no_row f a r p) = omega arith
Step-size (flags_begin f a r p) = omega arith
Step-size (next_row f a r p) = omega arith
Step-size (last_row f a r p) = omega arith
Step-size (close f a r p) = omega arith

Run-size : {p q : Pool} → Run p q → size q ≡ size p
Run-size (here p) = refl
Run-size (then run step) = omega (arith, Step-size step, Run-size run)

abbrev pub IsStuck : Pool → Type 0
IsStuck p = (q : Pool) → ¬ Step p q

-- Every connection is held by a call that asks for a second one.
abbrev pub all_asking : Pool
all_asking = pool 0 max_conns 0 0

can_move : {p q : Pool} → Step p q → 0 < p.free + p.reading + p.past
can_move (first_row f a r p) = omega arith
can_move (no_row f a r p) = omega arith
can_move (flags_begin f a r p) = omega arith
can_move (next_row f a r p) = omega arith
can_move (last_row f a r p) = omega arith
can_move (close f a r p) = omega arith

all_asking-IsStuck : IsStuck all_asking
all_asking-IsStuck q step = absurd (omega (arith, can_move step))

stuck_counts :
    (f a r p : ℕ)
    → f + a + 2 * r + p ≡ max_conns
    → IsStuck (pool f a r p)
    → pool f a r p ≡ all_asking
stuck_counts (suc f) a r p full stuck = absurd (stuck _ (first_row f a r p))
stuck_counts zero a (suc r) p full stuck = absurd (stuck _ (next_row zero a r p))
stuck_counts zero a zero (suc p) full stuck = absurd (stuck _ (close zero a zero p))
stuck_counts zero a zero zero full stuck = ap (λ (n : ℕ). pool 0 n 0 0) (omega (arith, full))

stuck-all_asking : (p : Pool) → size p ≡ max_conns → IsStuck p → p ≡ all_asking
stuck-all_asking p full stuck = stuck_counts p.free p.asking p.reading p.past full stuck

-- Twelve calls that begin at the same time come there.
pub all_asking-reached : Run (pool max_conns 0 0 0) all_asking
all_asking-reached =
    then
      (then
        (then
          (then
            (then
              (then
                (then
                  (then
                    (then
                      (then (then (then (here _) (first_row 11 0 0 0)) (first_row 10 1 0 0))
                        (first_row 9 2 0 0))
                      (first_row 8 3 0 0))
                    (first_row 7 4 0 0))
                  (first_row 6 5 0 0))
                (first_row 5 6 0 0))
              (first_row 4 7 0 0))
            (first_row 3 8 0 0))
          (first_row 2 9 0 0))
        (first_row 1 10 0 0))
      (first_row 0 11 0 0)

-- From a pool whose connections are all free, the calls come to a stop exactly where twelve of them hold a
-- connection and each asks for a second one. With other calls in the pool, one can always go on.
pub standstill_iff : (p : Pool) → Run (pool max_conns 0 0 0) p → IsStuck p ↔ (p ≡ all_asking)
standstill_iff p run = (stuck-all_asking p (Run-size run), λ same. rw same all_asking-IsStuck)
