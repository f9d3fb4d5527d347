-- ===== src/Ingest/Backfill.antt =====
-- The window of `ingestCandles` (backend/internal/ingest/scheduler.go), and what the client charges for it.
use Prim.Native.Nat.{min}
use maelstromhub.Prelude.{ℕ, ◌+◌, ◌-◌, ◌^◌, ◌*◌, ◌/◌, ◌≤◌, ◌<◌, ◌≡◌, arith, ◌∙◌, ap}
use maelstromhub.Prelude.Int.{pos, int64-pos, ◌-ℤ◌, ◌*ℤ◌}
use maelstromhub.Client.Window.{day, dynamic_weight_from_window, window_weight}
use maelstromhub.Ingest.Jobs.{epoch, to_unix_milli, backfill_start}

-- a day, in nanoseconds
abbrev pub day_ns : ℕ
day_ns = 24 * 3600 * 1_000_000_000

backfill_ns : (days : ℕ) → pos days *ℤ pos day_ns ≡ pos (days * day_ns)
unfolding ◌*ℤ◌
backfill_ns days = ground arith

minus_pos : (a b : ℕ) → b ≤ a → pos a -ℤ pos b ≡ pos (a - b)
unfolding ◌-ℤ◌
minus_pos a b h = ground arith

backfill_start_lem :
    (days end : ℕ)
    → days ≤ 106_751
    → days * day_ns ≤ end
    → backfill_start (pos days) end + days * day_ns ≡ end
unfolding backfill_start
backfill_start_lem days end few late =
    let n = days * day_ns in
    let small : n < 2 ^ 63 = omega arith in
    rw (backfill_start, backfill_ns days, int64-pos n small, minus_pos end n late)
      (omega (arith, late))

to_unix_milli_lem : (t : ℕ) → epoch * 1_000_000 ≤ t → to_unix_milli t ≡ pos (t / 1_000_000 - epoch)
to_unix_milli_lem t h = ground arith

whole_days :
    (days start end : ℕ)
    → epoch * 1_000_000 ≤ start
    → start + days * day_ns ≡ end
    → ((end / 1_000_000 - epoch) - (start / 1_000_000 - epoch)) / day ≡ days
whole_days days start end late apart = omega (arith, late, apart)

-- A backfill of some days, at most 106751, from after 1970 on asks for candles of whole days: the extra weight
-- of each request is a third of the days, rounded down, but never more than 10.
pub backfill_weight :
    (days end : ℕ)
    → days ≤ 106_751
    → epoch * 1_000_000 + 1_000_000 + days * day_ns ≤ end
    → dynamic_weight_from_window (to_unix_milli (backfill_start (pos days) end)) (to_unix_milli end)
      ≡ min 10 (days / 3)
backfill_weight days end few late =
    let start = backfill_start (pos days) end in
    let apart = backfill_start_lem days end few (omega (arith, late)) in
    rw
      (
        to_unix_milli_lem start (omega (arith, apart, late)),
        to_unix_milli_lem end (omega (arith, late)),
      )
      (window_weight (start / 1_000_000 - epoch) (end / 1_000_000 - epoch)
          (omega (arith, apart, late))
        ∙ ap (λ (n : ℕ). min 10 (n / 3))
            (whole_days days start end (omega (arith, apart, late)) apart))
