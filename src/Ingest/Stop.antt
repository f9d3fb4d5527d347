-- ===== src/Ingest/Stop.antt =====
-- `Stop` of backend/internal/ingest/scheduler.go: the goroutines of `loop`, and the wait group that counts them.
--
-- `Start` makes a goroutine for each loop, which first calls `time.NewTicker`: with an interval that is not positive,
-- that call panics, which ends the process, so there the goroutine does not go on. At a `select`, one goes on with the next tick or, once the context is
-- done, may leave instead: where both are possible, Go chooses.
pub mod Returns
use maelstromhub.Prelude.{
  ℕ, suc, ◌+◌, ◌-◌, ◌≡◌, ◌↔◌, refl, Bool, true, false, List, [], ◌∷◌, map, length, if◌then◌else◌,
  All, arith, String,
}
use maelstromhub.Config.{Config}
use maelstromhub.Prelude.Int.{ℤ, pos, ◌<ℤ◌}
use maelstromhub.Ingest.Start.{start, IsTicking}

-- where a goroutine of `loop` is: before `time.NewTicker`, with its interval, in `run`, at the `select`, or past its
-- end
pub data Phase : Type 0 where
  starting : ℤ → Phase
  in_run at_select gone : Phase

-- the goroutines, the counter of `wg`, and whether the context of the loops is done
pub record Group : Type 0 where
  pub loops : List Phase
  pub count : ℕ
  pub cancelled : Bool

abbrev pub group : List Phase → ℕ → Bool → Group
group loops count cancelled = record { loops = loops; count = count; cancelled = cancelled }

-- `Start`: each call of `loop` adds one to `wg`, and makes a goroutine.
unfoldable pub started : Config → Group
started cfg =
    let loops = start cfg in
    group (map (λ (named : String × ℤ). starting named.1) loops) (length loops) false

-- One goroutine goes on; behind `time.NewTicker` it runs its job first. The deferred `wg.Done()` takes one off the counter.
pub data Move : Bool → List Phase → ℕ → List Phase → ℕ → Type 0 where
  ticker_starts :
      (c : Bool) (i : ℤ) (ps : List Phase) (n : ℕ)
      → pos 0 <ℤ i
      → Move c (starting i ∷ ps) n (in_run ∷ ps) n
  run_ends : (c : Bool) (ps : List Phase) (n : ℕ) → Move c (in_run ∷ ps) n (at_select ∷ ps) n
  ticks : (c : Bool) (ps : List Phase) (n : ℕ) → Move c (at_select ∷ ps) n (in_run ∷ ps) n
  leaves : (ps : List Phase) (n : ℕ) → Move true (at_select ∷ ps) n (gone ∷ ps) (n - 1)
  other :
      {c : Bool} {ps qs : List Phase} {n m : ℕ} (p : Phase)
      → Move c ps n qs m
      → Move c (p ∷ ps) n (p ∷ qs) m

-- `Stop` up to its wait: `s.cancel` is there if `Start` has set it.
unfoldable pub stop : Config → Group → Group
stop cfg g = if cfg.scheduler_enabled then record g { cancelled = true } else g

abbrev pub one_unless_gone : Phase → ℕ
one_unless_gone (starting i) = 1
one_unless_gone in_run = 1
one_unless_gone at_select = 1
one_unless_gone gone = 0

-- the goroutines that have not ended
abbrev pub active : List Phase → ℕ
active [] = 0
active (p ∷ ps) = one_unless_gone p + active ps

pub Move-active :
    {c : Bool} {ps qs : List Phase} {n m : ℕ} (k : ℕ)
    → Move c ps n qs m
    → n ≡ active ps + k
    → m ≡ active qs + k
Move-active k (ticker_starts c i ps n h) e = omega (arith, e)
Move-active k (run_ends c ps n) e = omega (arith, e)
Move-active k (ticks c ps n) e = omega (arith, e)
Move-active k (leaves ps n) e = omega (arith, e)
Move-active k (other p move) e =
    omega (arith, Move-active (one_unless_gone p + k) move (omega (arith, e)))

active-starting :
    (loops : List (String × ℤ)) → length loops ≡ active (map (λ named. starting named.1) loops)
active-starting [] = refl
active-starting (named ∷ loops) = omega (arith, active-starting loops)

pub started-active : (cfg : Config) → (started cfg).count ≡ active (started cfg).loops
unfolding started
started-active cfg = active-starting (start cfg)

pub active_zero : (ps : List Phase) → active ps ≡ 0 → All (λ p. p ≡ gone) ps
active_zero [] e = tt
active_zero (starting i ∷ ps) e = absurd (omega (arith, e))
active_zero (in_run ∷ ps) e = absurd (omega (arith, e))
active_zero (at_select ∷ ps) e = absurd (omega (arith, e))
active_zero (gone ∷ ps) e = (refl, active_zero ps (omega (arith, e)))

-- A goroutine that is before `time.NewTicker` gets its ticker.
abbrev pub IsReady : Phase → Type 0
IsReady (starting i) = pos 0 <ℤ i
IsReady in_run = Unit
IsReady at_select = Unit
IsReady gone = Unit

starting-IsReady :
    (loops : List (String × ℤ))
    → All IsTicking loops
    → All IsReady (map (λ named. starting named.1) loops)
starting-IsReady [] h = tt
starting-IsReady (named ∷ loops) (h, hs) = (h, starting-IsReady loops hs)

pub started-IsReady : (cfg : Config) → All IsTicking (start cfg) → All IsReady (started cfg).loops
unfolding started
started-IsReady cfg h = starting-IsReady (start cfg) h

pub Move-IsReady :
    {c : Bool} {ps qs : List Phase} {n m : ℕ} → Move c ps n qs m → All IsReady ps → All IsReady qs
Move-IsReady (ticker_starts c i ps n h) (k, ks) = (tt, ks)
Move-IsReady (run_ends c ps n) (k, ks) = (tt, ks)
Move-IsReady (ticks c ps n) (k, ks) = (tt, ks)
Move-IsReady (leaves ps n) (k, ks) = (tt, ks)
Move-IsReady (other p move) (k, ks) = (k, Move-IsReady move ks)
