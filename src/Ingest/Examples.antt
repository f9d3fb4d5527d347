-- ===== src/Ingest/Examples.antt =====
-- The theorems about backend/internal/ingest/scheduler.go and the locks of backend/internal/store/store.go at
-- concrete books, trades, statements and runs.
use maelstromhub.Prelude.{
  ℕ, suc, ◌+◌, ◌*◌, ◌≡◌, refl, true, false, inl, Option, none, some, List, [], ◌∷◌, String, All,
  arith,
}
use maelstromhub.Prelude.Int.{pos}
use maelstromhub.Prelude.Dict.{lookup}
use maelstromhub.Float.{num, ◌≼◌}
use maelstromhub.Float.Fixed.{Fixed, milli, fixed_float, fixed_le, fixed_decimal}
use maelstromhub.Float.Fixed.Laws.{Fixed-IsOrdered, Fixed-IsArithmetic}
use maelstromhub.Models.{Candle, Feature}
use maelstromhub.Ingest.Books.{BookLevel, L2Book, orderbook_snapshot}
use maelstromhub.Ingest.Depth.{snapshot_depths}
use maelstromhub.Ingest.Locks.{
  try_lock, release_lock, World, Job, Answers, lock_ttl, start_run, run,
}
use maelstromhub.Ingest.Mutex.{try, release, taken, lock_excludes, stale_release}
use maelstromhub.Ingest.Runs.{IsLogged, run_completes}
use maelstromhub.Ingest.Compute.{Sources, compute_features, IsPriceFlag, compute_features_flags}

abbrev n : ℕ → Fixed
n k = milli (pos (k * 1000))

abbrev level : ℕ → ℕ → BookLevel Fixed
level price size = record { px = n price; sz = n size; n = pos 1 }

abbrev book : L2Book Fixed
book = record {
  coin = "BTC";
  levels = (level 9999 2 ∷ level 9990 5 ∷ []) ∷ (level 10_001 1 ∷ level 10_020 4 ∷ []) ∷ [];
  time = pos 1_700_000_000_000;
}

snapshot_depths_example :
    let s = orderbook_snapshot 0 "BTC" book in
    ((num 0 ≼ s.bid_depth_10_bps)
      × (s.bid_depth_10_bps ≼ s.bid_depth_50_bps)
      × (s.bid_depth_50_bps ≼ s.bid_depth_100_bps))
    × ((num 0 ≼ s.ask_depth_10_bps)
        × (s.ask_depth_10_bps ≼ s.ask_depth_50_bps)
        × (s.ask_depth_50_bps ≼ s.ask_depth_100_bps))
unfolding fixed_le fixed_decimal
snapshot_depths_example =
    snapshot_depths Fixed-IsOrdered Fixed-IsArithmetic 0 "BTC" book
      (((refl, refl), (refl, refl)), (((refl, refl), (refl, refl)), tt))
      (((refl, refl), (refl, refl)), (((refl, refl), (refl, refl)), tt))

free : (try_lock 5 10 "candles" []).1 ≡ true
unfolding try_lock lookup
free = refl

lock_excludes_example :
    taken "candles"
      (try 15 10 "candles" ∷ release "features" ∷ try 6 10 "features" ∷ [])
      (try_lock 5 10 "candles" []).0
    ≡ 0
lock_excludes_example =
    lock_excludes 5 10 "candles" []
      (try 15 10 "candles" ∷ release "features" ∷ try 6 10 "features" ∷ []) free
      (omega arith, (refl, (omega arith, tt)))

stale_release_example :
    let (first_has, _) = try_lock 5 10 "candles" [] in
    let (second_has, taken_over) = try_lock 16 10 "candles" first_has in
    (taken_over ≡ true)
    × ((try_lock 20 10 "candles" second_has).1 ≡ false)
    × ((try_lock 20 10 "candles" (release_lock "candles" second_has)).1 ≡ true)
stale_release_example = stale_release 5 16 20 10 "candles" [] free (omega arith) (omega arith)

abbrev start : World ℕ
start = (record { job_locks = []; ingestion_runs = [] }, 3)

abbrev job : Job ℕ
job (t, s) = ((t, suc s), (pos 12, some "timeout"))

abbrev answers : Answers
answers = record {
  now = 5;
  lock_error = none;
  start_error = none;
  id = "r1";
  finishes = true;
  releases = true;
}

takes : (try_lock 5 lock_ttl "candles" []).1 ≡ true
unfolding try_lock lookup
takes = refl

run_completes_example :
    let locks = (try_lock 5 lock_ttl "candles" []).0 in
    let (worked, result) =
      job (start_run "r1" "candles" (record start.0 { job_locks = locks }), 3) in
    let (after, returned) = run answers "candles" job start in
    (returned ≡ result)
    × (after.1 ≡ worked.1)
    × (lookup "candles" after.0.job_locks ≡ none)
    × All (IsLogged "r1" result) after.0.ingestion_runs
run_completes_example = run_completes answers "candles" job start (refl, takes) refl refl refl

abbrev candle : ℕ → Candle Fixed
candle hour = record {
  time = hour;
  coin = "BTC";
  interval = "1h";
  opening = n 100;
  high = n 110;
  low = n 90;
  close = n (100 + hour);
  volume = n (10 * hour);
  raw = [];
}

abbrev candles_of : String → List (Candle Fixed)
candles_of coin = candle 1 ∷ candle 2 ∷ candle 9 ∷ []

abbrev sources : Sources Fixed
sources = record { candles = candles_of; now = λ coin. 9; updated = λ coin. 10 }

abbrev upsert : List (Feature Fixed) → ℕ × Option String
upsert fs = (2, none)

compute_features_flags_example :
    All IsPriceFlag (compute_features sources (inl ("BTC" ∷ "ETH" ∷ [])) upsert).inserted
compute_features_flags_example =
    compute_features_flags Fixed-IsOrdered sources (inl ("BTC" ∷ "ETH" ∷ [])) upsert
