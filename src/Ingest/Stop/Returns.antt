-- ===== src/Ingest/Stop/Returns.antt =====
-- That the goroutines which `Stop` of backend/internal/ingest/scheduler.go waits for can end.
use maelstromhub.Prelude.{All, ℕ, ◌+◌, ◌-◌, ◌≡◌, refl, true, List, [], ◌∷◌, map, arith}
use maelstromhub.Ingest.Stop.{
  Phase, IsReady, ticker_starts, starting, in_run, at_select, gone, Move, run_ends, leaves, other,
  one_unless_gone, active,
}

-- Moves of the goroutines once the context is done.
pub data Moves : List Phase → ℕ → List Phase → ℕ → Type 0 where
  rest : (ps : List Phase) (n : ℕ) → Moves ps n ps n
  after :
      {ps qs rs : List Phase} {n m k : ℕ} → Moves ps n qs m → Move true qs m rs k → Moves ps n rs k

others : {ps qs : List Phase} {n m : ℕ} (p : Phase) → Moves ps n qs m → Moves (p ∷ ps) n (p ∷ qs) m
others p (rest ps n) = rest (p ∷ ps) n
others p (after moved move) = after (others p moved) (other p move)

one_leaves : (ps : List Phase) (n m : ℕ) → n ≡ 1 + m → Move true (at_select ∷ ps) n (gone ∷ ps) m
one_leaves ps n m e = let one_less : m ≡ n - 1 = omega (arith, e) in rw one_less (leaves ps n)

-- The first goroutine ends, after the others.
end_first :
    {ps qs : List Phase} {n k : ℕ} (p : Phase) (m : ℕ)
    → Moves ps n qs k
    → IsReady p
    → k ≡ one_unless_gone p + m
    → Moves (p ∷ ps) n (gone ∷ qs) m
end_first {ps} {qs} {n} {k} (starting i) m moved h e =
    let ticking = after (others (starting i) moved) (ticker_starts true i qs k h) in
    after (after ticking (run_ends true qs k)) (one_leaves qs k m e)
end_first {ps} {qs} {n} {k} in_run m moved h e =
    after (after (others in_run moved) (run_ends true qs k)) (one_leaves qs k m e)
end_first {ps} {qs} {n} {k} at_select m moved h e =
    after (others at_select moved) (one_leaves qs k m e)
end_first {ps} {qs} {n} {k} gone m moved h e =
    let same : m ≡ k = omega (arith, e) in rw same (others gone moved)

pub all_end :
    (ps : List Phase) (n m : ℕ)
    → All IsReady ps
    → n ≡ active ps + m
    → Moves ps n (map (λ p. gone) ps) m
all_end [] n m h e = let same : n ≡ m = omega (arith, e) in rw same (rest [] m)
all_end (p ∷ ps) n m (h, hs) e =
    end_first p m (all_end ps n (one_unless_gone p + m) hs (omega (arith, e))) h refl
