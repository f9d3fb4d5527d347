-- ===== src/Server/Shutdown.antt =====
-- The end of `main` of backend/cmd/server/main.go: from the signal to the end of the process, with the loops of the
-- scheduler beside it.
--
-- The requests that the HTTP server still answers are not part of the state: `Shutdown` returns when they have ended, or
-- after fifteen seconds. A panic of a loop ends the process at once, with what `main` has not closed yet left open.
pub mod Ends
pub mod Crash
use maelstromhub.Prelude.{
  ◌≢◌, ◌∷◌, ℕ, ◌<◌, ◌+◌, ◌≡◌, refl, Bool, true, false, List, ◌⊎◌, inl, inr, All, arith, map,
  Bool-cases,
}
use maelstromhub.Prelude.Int.{ℤ, pos, ◌<ℤ◌}
use maelstromhub.Config.{Config}
use maelstromhub.Ingest.Stop.{
  Phase, starting, ticker_starts, gone, Group, group, started, stop, Move, run_ends, ticks, leaves,
  other, active, active_zero, Move-active, started-active,
}

-- where `main` is: before the end of its context, in `Shutdown`, in `Stop`, in the deferred calls, at its end, or
-- cut off by a panic
pub data Place : Type 0 where
  serving shutting stopping closing_cache closing_pool ended crashed : Place

pub record Process : Type 0 where
  pub place : Place
  pub loops : Group
  pub cache_open : Bool
  pub pool_open : Bool

abbrev pub process : Place → Group → Bool → Bool → Process
process place loops cache_open pool_open = record {
  place = place;
  loops = loops;
  cache_open = cache_open;
  pool_open = pool_open;
}

-- the process that begins to serve
abbrev pub serving_process : Config → Process
serving_process cfg = process serving (started cfg) true true

-- Some loop calls `time.NewTicker` with an interval that is not positive.
pub data Panics : List Phase → Type 0 where
  this : (i : ℤ) (ps : List Phase) → ¬ (pos 0 <ℤ i) → Panics (starting i ∷ ps)
  later : (p : Phase) {ps : List Phase} → Panics ps → Panics (p ∷ ps)

-- One step of `main`, of a loop or of the environment. A signal and a failure of the HTTP server both end the context,
-- which is that of the loops too. The deferred calls run in reverse order.
pub data Step (cfg : Config) : Process → Process → Type 0 where
  loop_moves :
      {c : Bool} {ps qs : List Phase} {n m : ℕ} (place : Place) (cache pool : Bool)
      → place ≢ crashed
      → Move c ps n qs m
      → Step cfg (process place (group ps n c) cache pool) (process place (group qs m c) cache pool)
  context_ends :
      (place : Place) (ps : List Phase) (n : ℕ) (c cache pool : Bool)
      → place ≢ crashed
      → Step cfg
          (process place (group ps n c) cache pool)
          (process place (group ps n true) cache pool)
  begins_to_stop :
      (ps : List Phase) (n : ℕ) (cache pool : Bool)
      → Step cfg
          (process serving (group ps n true) cache pool)
          (process shutting (group ps n true) cache pool)
  shuts_down :
      (g : Group) (cache pool : Bool)
      → Step cfg (process shutting g cache pool) (process stopping (stop cfg g) cache pool)
  stop_returns :
      (ps : List Phase) (c cache pool : Bool)
      → Step cfg
          (process stopping (group ps 0 c) cache pool)
          (process closing_cache (group ps 0 c) cache pool)
  cache_closes :
      (g : Group) (cache pool : Bool)
      → Step cfg (process closing_cache g cache pool) (process closing_pool g false pool)
  pool_closes :
      (g : Group) (cache pool : Bool)
      → Step cfg (process closing_pool g cache pool) (process ended g cache false)
  loop_panics :
      (place : Place) (g : Group) (cache pool : Bool)
      → Panics g.loops
      → Step cfg (process place g cache pool) (process crashed g cache pool)

pub data Run (cfg : Config) : Process → Process → Type 0 where
  here : (p : Process) → Run cfg p p
  onward : {p q r : Process} → Run cfg p q → Step cfg q r → Run cfg p r

-- what holds of the counter and of the databases at each place
abbrev pub IsOrderly : Place → ℕ → Bool → Bool → Type 0
IsOrderly serving n cache pool = (cache ≡ true) × (pool ≡ true)
IsOrderly shutting n cache pool = (cache ≡ true) × (pool ≡ true)
IsOrderly stopping n cache pool = (cache ≡ true) × (pool ≡ true)
IsOrderly closing_cache n cache pool = (n ≡ 0) × (cache ≡ true) × (pool ≡ true)
IsOrderly closing_pool n cache pool = (n ≡ 0) × (cache ≡ false) × (pool ≡ true)
IsOrderly ended n cache pool = (n ≡ 0) × (cache ≡ false) × (pool ≡ false)
IsOrderly crashed n cache pool = (cache ≡ true) × (pool ≡ true)

pub record IsSound (p : Process) : Type 0 where
  pub counted : p.loops.count ≡ active p.loops.loops
  pub orderly : IsOrderly p.place p.loops.count p.cache_open p.pool_open

Move-alive : {c : Bool} {ps qs : List Phase} {n m : ℕ} → Move c ps n qs m → 0 < active ps
Move-alive (ticker_starts c i ps n h) = omega arith
Move-alive (run_ends c ps n) = omega arith
Move-alive (ticks c ps n) = omega arith
Move-alive (leaves ps n) = omega arith
Move-alive (other p move) = omega (arith, Move-alive move)

Move-zero :
    {c : Bool} {ps qs : List Phase} {n m : ℕ} → Move c ps n qs m → n ≡ active ps → n ≡ 0 → m ≡ 0
Move-zero move e zero = absurd (omega (arith, Move-alive move))

Move-IsOrderly :
    {c : Bool} {ps qs : List Phase} {n m : ℕ} (place : Place) (cache pool : Bool)
    → Move c ps n qs m
    → n ≡ active ps
    → IsOrderly place n cache pool
    → IsOrderly place m cache pool
Move-IsOrderly serving cache pool move e h = h
Move-IsOrderly shutting cache pool move e h = h
Move-IsOrderly stopping cache pool move e h = h
Move-IsOrderly closing_cache cache pool move e (zero, h, k) = (Move-zero move e zero, h, k)
Move-IsOrderly closing_pool cache pool move e (zero, h, k) = (Move-zero move e zero, h, k)
Move-IsOrderly ended cache pool move e (zero, h, k) = (Move-zero move e zero, h, k)
Move-IsOrderly crashed cache pool move e h = h

pub Panics-active : {ps : List Phase} → Panics ps → 0 < active ps
Panics-active (this i ps bad) = omega arith
Panics-active (later p panics) = omega (arith, Panics-active panics)

Panics-IsOrderly :
    (place : Place) (n : ℕ) (cache pool : Bool)
    → 0 < n
    → IsOrderly place n cache pool
    → IsOrderly crashed n cache pool
Panics-IsOrderly serving n cache pool alive h = h
Panics-IsOrderly shutting n cache pool alive h = h
Panics-IsOrderly stopping n cache pool alive h = h
Panics-IsOrderly closing_cache n cache pool alive (zero, h, k) = (h, k)
Panics-IsOrderly closing_pool n cache pool alive (zero, h, k) = absurd (omega (arith, alive, zero))
Panics-IsOrderly ended n cache pool alive (zero, h, k) = absurd (omega (arith, alive, zero))
Panics-IsOrderly crashed n cache pool alive h = h

stop-eq :
    (cfg : Config) (g : Group) → ((stop cfg g).loops ≡ g.loops) × ((stop cfg g).count ≡ g.count)
unfolding stop
stop-eq cfg g = elim (Bool-cases cfg.scheduler_enabled) [
  | inl on ↦ rw on (refl, refl)
  | inr off ↦ rw off (refl, refl)
]

module _ {cfg : Config} where
  Step-IsSound : {p q : Process} → Step cfg p q → IsSound p → IsSound q
  Step-IsSound (loop_moves place cache pool lives move) s = record {
    counted = omega (arith, Move-active 0 move (omega (arith, s.counted)));
    orderly = Move-IsOrderly place cache pool move s.counted s.orderly;
  }
  Step-IsSound (context_ends place ps n c cache pool lives) s = record {
    counted = s.counted;
    orderly = s.orderly;
  }
  Step-IsSound (begins_to_stop ps n cache pool) s = record {
    counted = s.counted;
    orderly = s.orderly;
  }
  Step-IsSound (shuts_down g cache pool) s =
      let (same, same') = stop-eq cfg g in
      record { counted = rw (same, same') s.counted; orderly = s.orderly }
  Step-IsSound (stop_returns ps c cache pool) s = record {
    counted = s.counted;
    orderly = (refl, s.orderly.0, s.orderly.1);
  }
  Step-IsSound (cache_closes g cache pool) s = record {
    counted = s.counted;
    orderly = (s.orderly.0, refl, s.orderly.2);
  }
  Step-IsSound (pool_closes g cache pool) s = record {
    counted = s.counted;
    orderly = (s.orderly.0, s.orderly.1, refl);
  }
  Step-IsSound (loop_panics place g cache pool panics) s = record {
    counted = s.counted;
    orderly =
        Panics-IsOrderly place g.count cache pool (omega (arith, Panics-active panics, s.counted))
          s.orderly;
  }

  pub Run-IsSound : {p q : Process} → Run cfg p q → IsSound p → IsSound q
  Run-IsSound (here p) s = s
  Run-IsSound (onward run step) s = Step-IsSound step (Run-IsSound run s)

pub reached-IsSound : (cfg : Config) {p : Process} → Run cfg (serving_process cfg) p → IsSound p
reached-IsSound cfg run =
    Run-IsSound run (record { counted = started-active cfg; orderly = (refl, refl) })

closed_zero :
    (place : Place) (n : ℕ) (cache pool : Bool)
    → IsOrderly place n cache pool
    → (cache ≡ false) ⊎ (pool ≡ false)
    → n ≡ 0
closed_zero serving n cache pool (h, k) closed = elim closed [ inl e ↦ cc | inr e ↦ cc ]
closed_zero shutting n cache pool (h, k) closed = elim closed [ inl e ↦ cc | inr e ↦ cc ]
closed_zero stopping n cache pool (h, k) closed = elim closed [ inl e ↦ cc | inr e ↦ cc ]
closed_zero closing_cache n cache pool (zero, h, k) closed = zero
closed_zero closing_pool n cache pool (zero, h, k) closed = zero
closed_zero ended n cache pool (zero, h, k) closed = zero
closed_zero crashed n cache pool (h, k) closed = elim closed [ inl e ↦ cc | inr e ↦ cc ]

-- Neither database is closed while a loop of the scheduler is left that could run a job: at every moment at which the
-- client of Redis or the pool of PostgreSQL is closed, all loops have ended.
pub loops_end_first :
    (cfg : Config) {p : Process}
    → Run cfg (serving_process cfg) p
    → (p.cache_open ≡ false) ⊎ (p.pool_open ≡ false)
    → All (λ phase. phase ≡ gone) p.loops.loops
loops_end_first cfg {p} run closed =
    let s = reached-IsSound cfg run in
    let zero = closed_zero p.place p.loops.count p.cache_open p.pool_open s.orderly closed in
    active_zero p.loops.loops (omega (arith, s.counted, zero))
