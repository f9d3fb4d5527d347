-- ===== src/Server/Shutdown/Ends.antt =====
-- That the process of backend/cmd/server/main.go ends.
use maelstromhub.Prelude.{
  ◌≢◌, All, ℕ, ◌≡◌, refl, Bool, true, false, List, map, arith, Bool-cases, inl, inr,
}
use mathlib.Core.Path.{subst}
use maelstromhub.Config.{Config}
use maelstromhub.Ingest.Stop.{
  Phase, Group, gone, group, stop, IsReady, Move-IsReady, started-IsReady,
}
use maelstromhub.Ingest.Start.{start, IsTicking}
use maelstromhub.Ingest.Stop.Returns.{Moves, rest, after, all_end}
use maelstromhub.Server.Shutdown.{
  Place, serving, shutting, stopping, closing_cache, closing_pool, ended, Process, process,
  serving_process, loop_moves, context_ends, begins_to_stop, shuts_down, stop_returns, cache_closes,
  pool_closes, crashed, Panics, this, later, Step, loop_panics, Run, here, onward, IsOrderly,
  Run-IsSound, reached-IsSound,
}

stop-cancelled :
    (cfg : Config) (ps : List Phase) (n : ℕ) → stop cfg (group ps n true) ≡ group ps n true
unfolding stop
stop-cancelled cfg ps n = elim (Bool-cases cfg.scheduler_enabled) [
  | inl on ↦ rw on refl
  | inr off ↦ rw off refl
]

module _ {cfg : Config} where
  loops-Run :
      {p : Process} {ps qs : List Phase} {n m : ℕ} (place : Place) (cache pool : Bool)
      → place ≢ crashed
      → Moves ps n qs m
      → Run cfg p (process place (group ps n true) cache pool)
      → Run cfg p (process place (group qs m true) cache pool)
  loops-Run place cache pool lives (rest ps n) run = run
  loops-Run place cache pool lives (after moved move) run =
      onward (loops-Run place cache pool lives moved run) (loop_moves place cache pool lives move)

-- the process whose context has ended and whose counter is zero
abbrev settled : List Phase → Place → Bool → Bool → Process
settled ps place cache pool = process place (group ps 0 true) cache pool

module _ (cfg : Config) {p : Process} (ps : List Phase) where
  with_flags :
      {place : Place} {cache pool a b : Bool}
      → cache ≡ a
      → pool ≡ b
      → Run cfg p (settled ps place cache pool)
      → Run cfg p (settled ps place a b)
  with_flags {place} {cache} {pool} {a} h k run =
      subst (λ c. Run cfg p (settled ps place a c)) k
        (subst (λ c. Run cfg p (settled ps place c pool)) h run)

  from_closing_pool :
      Run cfg p (settled ps closing_pool false true) → Run cfg p (settled ps ended false false)
  from_closing_pool run = onward run (pool_closes (group ps 0 true) false true)

  from_closing_cache :
      Run cfg p (settled ps closing_cache true true) → Run cfg p (settled ps ended false false)
  from_closing_cache run = from_closing_pool (onward run (cache_closes (group ps 0 true) true true))

  from_stopping :
      Run cfg p (settled ps stopping true true) → Run cfg p (settled ps ended false false)
  from_stopping run = from_closing_cache (onward run (stop_returns ps true true true))

  from_shutting :
      Run cfg p (settled ps shutting true true) → Run cfg p (settled ps ended false false)
  from_shutting run = from_stopping (
      subst (λ g. Run cfg p (process stopping g true true)) (stop-cancelled cfg ps 0)
        (onward run (shuts_down (group ps 0 true) true true)))

  from_serving : Run cfg p (settled ps serving true true) → Run cfg p (settled ps ended false false)
  from_serving run = from_shutting (onward run (begins_to_stop ps 0 true true))

  from_place :
      (place : Place) (cache pool : Bool)
      → place ≢ crashed
      → IsOrderly place 0 cache pool
      → Run cfg p (settled ps place cache pool)
      → Run cfg p (settled ps ended false false)
  from_place serving cache pool lives (h, k) run = from_serving (with_flags h k run)
  from_place shutting cache pool lives (h, k) run = from_shutting (with_flags h k run)
  from_place stopping cache pool lives (h, k) run = from_stopping (with_flags h k run)
  from_place closing_cache cache pool lives (z, h, k) run = from_closing_cache (with_flags h k run)
  from_place closing_pool cache pool lives (z, h, k) run = from_closing_pool (with_flags h k run)
  from_place ended cache pool lives (z, h, k) run = with_flags h k run
  from_place crashed cache pool lives h run = absurd (lives refl)

not-Panics : {ps : List Phase} → Panics ps → ¬ All IsReady ps
not-Panics (this i ps bad) (h, hs) = bad h
not-Panics (later p panics) (h, hs) = not-Panics panics hs

-- No loop has panicked, and none will.
pub record IsLive (p : Process) : Type 0 where
  pub lives : p.place ≢ crashed
  pub ready : All IsReady p.loops.loops

stop-IsReady : (cfg : Config) (g : Group) → All IsReady g.loops → All IsReady (stop cfg g).loops
unfolding stop
stop-IsReady cfg g h = elim (Bool-cases cfg.scheduler_enabled) [
  | inl on ↦ rw on h
  | inr off ↦ rw off h
]

module _ {cfg : Config} where
  Step-IsLive : {p q : Process} → Step cfg p q → IsLive p → IsLive q
  Step-IsLive (loop_moves place cache pool lives move) s = record {
    lives = lives;
    ready = Move-IsReady move s.ready;
  }
  Step-IsLive (context_ends place ps n c cache pool lives) s = record {
    lives = lives;
    ready = s.ready;
  }
  Step-IsLive (begins_to_stop ps n cache pool) s = record { lives = λ e. cc; ready = s.ready }
  Step-IsLive (shuts_down g cache pool) s = record {
    lives = λ e. cc;
    ready = stop-IsReady cfg g s.ready;
  }
  Step-IsLive (stop_returns ps c cache pool) s = record { lives = λ e. cc; ready = s.ready }
  Step-IsLive (cache_closes g cache pool) s = record { lives = λ e. cc; ready = s.ready }
  Step-IsLive (pool_closes g cache pool) s = record { lives = λ e. cc; ready = s.ready }
  Step-IsLive (loop_panics place g cache pool panics) s = absurd (not-Panics panics s.ready)

  Run-IsLive : {p q : Process} → Run cfg p q → IsLive p → IsLive q
  Run-IsLive (here p) s = s
  Run-IsLive (onward run step) s = Step-IsLive step (Run-IsLive run s)

-- Where the interval of every loop is positive, the process can always come to its end: wherever it is, no loop
-- has panicked, and if its context ends, the loops can end, each after the job that it is in, and `main` then
-- goes through `Shutdown`, `Stop` and its deferred calls, after which both databases are closed.
pub process_ends :
    (cfg : Config)
    → All IsTicking (start cfg)
    → {p : Process} → Run cfg (serving_process cfg) p
    → (p.place ≢ crashed)
      × Run cfg p (process ended (group (map (λ phase. gone) p.loops.loops) 0 true) false false)
process_ends cfg ticking {p} run =
    let s = reached-IsSound cfg run in
    let live = Run-IsLive run (record { lives = λ e. cc; ready = started-IsReady cfg ticking }) in
    let g = p.loops in
    let cancelled : Run cfg p
        (process p.place (group g.loops g.count true) p.cache_open p.pool_open) =
      onward (here p)
        (context_ends p.place g.loops g.count g.cancelled p.cache_open p.pool_open live.lives) in
    let moved = all_end g.loops g.count 0 live.ready (omega (arith, s.counted)) in
    let left = loops-Run p.place p.cache_open p.pool_open live.lives moved cancelled in
    let sound = Run-IsSound left s in
    (
      live.lives,
      from_place cfg (map (λ phase. gone) g.loops) p.place p.cache_open p.pool_open live.lives
          sound.orderly left,
    )
