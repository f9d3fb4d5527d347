-- ===== src/Store/Examples.antt =====
-- The theorems about the writes of backend/internal/store/store.go at a concrete database.
use maelstromhub.Prelude.{
  ℕ, zero, suc, ◌≤◌, ◌<◌, ◌*◌, ◌≡◌, refl, Option, none, some, List, [], ◌∷◌, String, arith,
}
use maelstromhub.Prelude.Int.{pos}
use maelstromhub.Float.Fixed.{Fixed, milli}
use maelstromhub.Models.{Candle}
use maelstromhub.Store.{put_candle}
use maelstromhub.Store.Batch.{FailsFirst, send_batch, send_batch_refused}

abbrev n : ℕ → Fixed
n k = milli (pos (k * 1000))

abbrev candle : ℕ → ℕ → Candle Fixed
candle hour close = record {
  time = hour * 3_600_000_000_000;
  coin = "BTC";
  interval = "1h";
  opening = n 100;
  high = n 110;
  low = n 90;
  close = n close;
  volume = n 10;
  raw = [];
}

abbrev two_candles : List (Candle Fixed)
two_candles = candle 1 101 ∷ candle 2 102 ∷ []

-- The second statement is refused.
abbrev refused : ℕ → Option String
refused zero = none
refused (suc zero) = some "deadlock detected"
refused (suc (suc i)) = none

before_refused : (j : ℕ) → 0 ≤ j → j < 1 → refused j ≡ none
before_refused zero h k = refl
before_refused (suc j) h k = absurd (omega arith)

abbrev first_refused : FailsFirst refused 0 1 "deadlock detected"
first_refused = record { from = omega arith; refused = refl; before = before_refused }

send_batch_refused_example :
    send_batch put_candle refused two_candles [] ≡ ([], (1, some "deadlock detected"))
send_batch_refused_example =
    send_batch_refused put_candle refused two_candles [] 1 "deadlock detected" (omega arith)
      first_refused
