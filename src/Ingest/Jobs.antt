-- ===== src/Ingest/Jobs.antt =====
-- The jobs `ingestCandles`, `ingestL2Books` and `ingestRecentTrades` of backend/internal/ingest/scheduler.go:
-- what they fetch, over the client and its limiter, and what they write to the database.
--
-- A job makes its calls in order: `calls n` is what the call `n` meets. A job whose call waits for the limiter
-- without end does not end.
use maelstromhub.Prelude.{
  ℕ, suc, ◌+◌, ◌*◌, ◌/◌, Bool, false, Option, none, some, List, [], ◌∷◌, ◌++◌, String, map,
}
use maelstromhub.Prelude.Int.{ℤ, pos, negsuc, ◌-ℤ◌, ◌*ℤ◌, int64, pos_part, sub_ℕ}
use maelstromhub.Float.{Float}
use maelstromhub.Models.{Candle}
use maelstromhub.Client.{Bytes, Outcome, value, error, RateLimiter, Ended, returned, blocked}
use maelstromhub.Client.Requests
use maelstromhub.Client.Requests.{Call, candle_snapshot, l2_book, recent_trades}
use maelstromhub.Ingest.Books.{L2Book, Trade, orderbook_snapshot, trade_snapshot}
use maelstromhub.Query.Coins.{active_coins, shortlist_coins}
use maelstromhub.Store.{
  Database, Written, upsert_candles, insert_orderbook_snapshots, insert_recent_trade_snapshots,
}

-- How a job ends: with a count and an error, or not while its environment lasts.
pub data JobEnd : Type 0 where
  done : ℕ → Option String → JobEnd
  waits : JobEnd

-- the Unix epoch, in milliseconds since Go's zero time
abbrev pub epoch : ℕ
epoch = 62_135_596_800 * 1000

-- `time.UnixMilli`, for a time from Go's zero time on
abbrev pub unix_milli : ℤ → ℕ
unix_milli (pos ms) = (epoch + ms) * 1_000_000
unix_milli (negsuc ms) = pos_part (sub_ℕ epoch (suc ms)) * 1_000_000

-- `t.UnixMilli()`
abbrev pub to_unix_milli : ℕ → ℤ
to_unix_milli t = sub_ℕ (t / 1_000_000) epoch

-- `end.Add(-time.Duration(days) * 24 * time.Hour)`: a duration is less than 300 years, so this is after Go's
-- zero time.
unfoldable pub backfill_start : ℤ → ℕ → ℕ
unfolding ◌-ℤ◌ ◌*ℤ◌ int64
backfill_start days end = pos_part (pos end -ℤ int64 (days *ℤ pos (24 * 3600 * 1_000_000_000)))

-- the two loops of `ingestCandles`, as one over the pairs
abbrev pub pairs : List String → List String → List (String × String)
pairs [] intervals = []
pairs (coin ∷ coins) intervals =
    map (λ (interval : String). (coin, interval)) intervals ++ pairs coins intervals

module _ {ℓ} {F : Type ℓ} where
  abbrev pub candle_of : String → String → Requests.Candle F → Candle F
  candle_of coin interval c = record {
    time = unix_milli c.time;
    coin = coin;
    interval = interval;
    opening = c.opening;
    high = c.high;
    low = c.low;
    close = c.close;
    volume = c.volume;
    raw = c.raw;
  }

-- A loop over the coins that fetches something for each and leaves out the coins where that fails.
module _ {ℓ κ μ} {S : Type ℓ} {A : Type κ} {R : Type μ} (fetch : ℕ → S → S × Ended A)
    (row : ℕ → String → A → R) where
  abbrev pub add_row : ℕ → String → Outcome A → S × Option (List R) → S × Option (List R)
  add_row n coin (error e) rest = rest
  add_row n coin (value a) (s, none) = (s, none)
  add_row n coin (value a) (s, some rows) = (s, some (row n coin a ∷ rows))

  unfoldable pub fetch_each : ℕ → List String → S → S × Option (List R)
  fetch_each n [] s = (s, some [])
  fetch_each n (coin ∷ coins) s =
      let (s', ended) = fetch n s in
      elim ended [
        | blocked ↦ (s', none)
        | returned outcome ↦ add_row n coin outcome (fetch_each (suc n) coins s')
      ]

module _ {ℓ κ} {S : Type ℓ} {F : Type κ} where
  abbrev pub ended_with : S → Written F → (S × Database F) × JobEnd
  ended_with s (db, (count, err)) = ((s, db), done count err)

  -- the last statement of a job that fetches for the shortlist
  abbrev pub write_rows {μ} :
      {R : Type μ}
      → (List R → Database F → Written F)
      → Database F
      → S × Option (List R)
      → (S × Database F) × JobEnd
  write_rows insert db (s, none) = ((s, db), waits)
  write_rows insert db (s, some rows) = ended_with s (insert rows db)

  -- the first statement of a job: the coins, or an error
  abbrev pub with_coins :
      (List String → (S × Database F) × JobEnd)
      → S × Database F
      → List String × Option String
      → (S × Database F) × JobEnd
  with_coins job w (coins, none) = job coins
  with_coins job w (coins, some e) = (w, done 0 (some e))

  -- the loop of `ingestCandles` from the call `n` on: `answers n` answers the statements of the batch `n`
  unfoldable pub candles_loop :
      (ℕ → S → S × Ended (List (Requests.Candle F)))
      → (ℕ → ℕ → Option String)
      → ℕ
      → List (String × String)
      → S
      → Database F
      → ℕ
      → (S × Database F) × JobEnd
  candles_loop fetch answers n [] s db total = ((s, db), done total none)
  candles_loop fetch answers n ((coin, interval) ∷ rest) s db total =
      let (s', ended) = fetch n s in
      elim ended [
        | blocked ↦ ((s', db), waits)
        | returned outcome ↦ elim outcome [
          | error e ↦ candles_loop fetch answers (suc n) rest s' db total
          | value candles ↦
              (let (db', (count, err)) =
                  upsert_candles (answers n) (map (candle_of coin interval) candles) db in
                elim err [
                  | none ↦ candles_loop fetch answers (suc n) rest s' db' (total + count)
                  | some e ↦ ((s', db'), done (total + count) (some e))
                ])
        ]
      ]

module _ {ℓ κ ν} {S : Type ℓ} {E : Type κ} {F : Type ν} ⦃d : Float F⦄ (limiter : RateLimiter S E)
    (calls : ℕ → Call E) (collate : String → String → Bool) (query_error : Option String) where
  -- the call `n` of `ingestCandles`, which ends its window at `end`
  abbrev pub fetch_candles :
      (Bytes → Option (List (Requests.Candle F)))
      → ℤ
      → ℕ
      → ℕ
      → S
      → S × Ended (List (Requests.Candle F))
  fetch_candles decode days end n s =
      candle_snapshot limiter decode (to_unix_milli (backfill_start days end)) (to_unix_milli end)
        (calls n) s

  unfoldable pub ingest_candles :
      (Bytes → Option (List (Requests.Candle F)))
      → (ℕ → ℕ → Option String)
      → ℤ
      → List String
      → ℕ
      → S × Database F
      → (S × Database F) × JobEnd
  ingest_candles decode answers days intervals end (s, db) =
      with_coins
        (λ coins.
          candles_loop (fetch_candles decode days end) answers 0 (pairs coins intervals) s db 0)
        (s, db) (active_coins collate query_error db)

  -- `clock n` is the time at the snapshot of the call `n`.
  unfoldable pub ingest_l2_books :
      (Bytes → Option (L2Book F))
      → (ℕ → Option String)
      → ℤ
      → (ℕ → ℕ)
      → S × Database F
      → (S × Database F) × JobEnd
  ingest_l2_books decode answers size clock (s, db) =
      with_coins
        (λ coins. write_rows (insert_orderbook_snapshots answers) db (
          fetch_each (λ n. l2_book limiter decode false (calls n))
            (λ n. orderbook_snapshot (clock n)) 0 coins s))
        (s, db) (shortlist_coins collate query_error size db)

  unfoldable pub ingest_recent_trades :
      (Bytes → Option (List (Trade F)))
      → (ℕ → Option String)
      → ℤ
      → (ℕ → ℕ)
      → S × Database F
      → (S × Database F) × JobEnd
  ingest_recent_trades decode answers size clock (s, db) =
      with_coins
        (λ coins. write_rows (insert_recent_trade_snapshots answers) db (
          fetch_each (λ n. recent_trades limiter decode false (calls n))
            (λ n. trade_snapshot (clock n)) 0 coins s))
        (s, db) (shortlist_coins collate query_error size db)
