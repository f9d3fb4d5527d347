-- ===== src/Ingest/Stored.antt =====
-- What `ingestCandles` (backend/internal/ingest/scheduler.go) leaves in the table of candles.
use maelstromhub.Prelude.{
  ℕ, zero, suc, ◌+◌, ◌<◌, ◌≡◌, ◌≢◌, refl, Bool, Option, none, some, List, [], ◌∷◌, String, map,
  get_elem?, get_elem?-map, arith, ◌∙◌, inl, inr, Option-cases,
}
use maelstromhub.Prelude.Int.{ℤ}
use maelstromhub.Float.{Float}
use maelstromhub.Models.{Candle}
use maelstromhub.Client.{Bytes, value, RateLimiter, Ended, returned, blocked}
use maelstromhub.Client.Requests
use maelstromhub.Client.Requests.{Call, Ended-cases}
use maelstromhub.Store.{
  Database, micros, same_bar, candle_key, stored_candle, put_candle, upsert_candles,
}
use maelstromhub.Store.Batch.{exec_loop, send_batch, send_batch_accepted}
use maelstromhub.Store.Rows.{select, last_or, last_or-some, last_or-get_elem?, select-all}
use maelstromhub.Store.Keys.{same_bar_iff}
use maelstromhub.Query.Coins.{active_coins}
use maelstromhub.Ingest.Jobs.{
  unix_milli, pairs, candle_of, candles_loop, fetch_candles, ingest_candles,
}

module _ {ℓ} {F : Type ℓ} where
  -- There is a candle with this coin, this interval and this time.
  abbrev pub HasCandle : String × String × ℕ → Database F → Type ℓ
  HasCandle k db = (row : Candle F) × (select candle_key same_bar k db.candles ≡ some row)

  last_or_keeps :
      (k : String × String × ℕ) (other : Option (Candle F)) {found : Candle F}
      (new : List (Candle F))
      → other ≡ some found
      → (row : Candle F) × (last_or candle_key same_bar k other new ≡ some row)
  last_or_keeps k other {found = found} new h = rw h (last_or-some candle_key same_bar k found new)

  upsert_candles-HasCandle :
      (k : String × String × ℕ) (answers : ℕ → Option String) (rows : List (Candle F))
      (db : Database F)
      → HasCandle k db
      → HasCandle k (upsert_candles answers rows db).0
  unfolding upsert_candles send_batch
  upsert_candles-HasCandle k answers rows db (row, has) =
      elim (Option-cases (exec_loop answers rows 0).1) [
        | inl accepted ↦
            let (last, found) = last_or_keeps k _ (map stored_candle rows) has in
            rw accepted (
              last,
              select-all candle_key same_bar same_bar_iff stored_candle k rows db.candles ∙ found,
            )
        | inr (e, refused) ↦ rw refused (row, has)
      ]

  upsert_candles-stores :
      (k : String × String × ℕ) (answers : ℕ → Option String) (rows : List (Candle F))
      (db : Database F) (i : ℕ) {c : Candle F}
      → ((j : ℕ) → answers j ≡ none)
      → get_elem? rows i ≡ some c
      → candle_key (stored_candle c) ≡ k
      → HasCandle k (upsert_candles answers rows db).0
  unfolding upsert_candles
  upsert_candles-stores k answers rows db i accepted e same =
      let (last, found) =
        last_or-get_elem? candle_key same_bar k (map stored_candle rows)
          (select candle_key same_bar k db.candles) i (get_elem?-map stored_candle rows i e)
          ((same_bar_iff _ k).1 same) in
      rw (send_batch_accepted put_candle answers rows db.candles (λ j h. accepted j))
        (last, select-all candle_key same_bar same_bar_iff stored_candle k rows db.candles ∙ found)

zero_add : (n : ℕ) → n + 0 ≡ n
zero_add n = omega arith

add_zero : (n : ℕ) → 0 + n ≡ n
add_zero n = omega arith

module _ {ℓ κ} {S : Type ℓ} {F : Type κ} (fetch : ℕ → S → S × Ended (List (Requests.Candle F)))
    (answers : ℕ → ℕ → Option String) where
  -- the client's state before the call `n + i`, from its state before the call `n` on
  unfoldable pub state_before : ℕ → ℕ → S → S
  state_before n zero s = s
  state_before n (suc i) s = state_before (suc n) i (fetch n s).0

  send_accepted :
      (n : ℕ) (rows : List (Candle F)) (db : Database F)
      → ((j : ℕ) → answers n j ≡ none)
      → (upsert_candles (answers n) rows db).1.1 ≡ none
  unfolding upsert_candles
  send_accepted n rows db all =
      rw (send_batch_accepted put_candle (answers n) rows db.candles (λ j h. all j)) refl

  candles_loop-HasCandle :
      (k : String × String × ℕ) (n : ℕ) (rest : List (String × String)) (s : S) (db : Database F)
      (total : ℕ)
      → HasCandle k db
      → HasCandle k (candles_loop fetch answers n rest s db total).0.1
  unfolding candles_loop
  candles_loop-HasCandle k n [] s db total h = h
  candles_loop-HasCandle k n ((coin, interval) ∷ rest) s db total h =
      elim (Ended-cases (fetch n s).1) [
        | inl stuck ↦ rw (candles_loop, stuck) h
        | inr (inl (err, failed)) ↦
            rw (candles_loop, failed)
              (candles_loop-HasCandle k (suc n) rest (fetch n s).0 db total h)
        | inr (inr (candles, ok)) ↦
            let rows = map (candle_of coin interval) candles in
            let written = upsert_candles (answers n) rows db in
            let kept = upsert_candles-HasCandle k (answers n) rows db h in
            elim (Option-cases written.1.1) [
              | inl accepted ↦
                  rw (candles_loop, ok, accepted)
                    (candles_loop-HasCandle k (suc n) rest (fetch n s).0 written.0
                      (total + written.1.0) kept)
              | inr (e, refused) ↦ rw (candles_loop, ok, refused) kept
            ]
      ]

  -- the batch of a pair whose candles are fetched
  candles_loop-stores :
      (k : String × String × ℕ) (n i j : ℕ) (rest : List (String × String)) (s : S)
      (db : Database F) (total : ℕ) {coin interval : String} {candles : List (Requests.Candle F)}
      {c : Requests.Candle F}
      → ((m m' : ℕ) → answers m m' ≡ none)
      → ((m : ℕ) → m < i → (fetch (n + m) (state_before n m s)).1 ≢ blocked)
      → get_elem? rest i ≡ some (coin, interval)
      → (fetch (n + i) (state_before n i s)).1 ≡ returned (value candles)
      → get_elem? candles j ≡ some c
      → (coin, interval, micros (unix_milli c.time)) ≡ k
      → HasCandle k (candles_loop fetch answers n rest s db total).0.1
  unfolding candles_loop state_before
  candles_loop-stores k n i j [] s db total accepted free here fetched found same = cc
  candles_loop-stores k n zero j ((coin, interval) ∷ rest) s db total {candles = candles} accepted
        free here fetched found same =
      let now : (fetch n s).1 ≡ returned (value candles) = rw (zero_add n) at fetched in
      let rows = map (candle_of coin interval) candles in
      let batch = send_accepted n rows db (accepted n) in
      let stored =
        upsert_candles-stores k (answers n) rows db j (accepted n)
          (get_elem?-map (candle_of coin interval) candles j found) (cc) in
      rw (candles_loop, now, batch) (candles_loop-HasCandle k (suc n) rest (fetch n s).0 _ _ stored)
  candles_loop-stores k n (suc i) j ((coin', interval') ∷ rest) s db total accepted free here
        fetched found same =
      let shift : (m : ℕ) → n + suc m ≡ suc n + m = λ m. omega arith in
      let later = λ (db' : Database F) (total' : ℕ).
        candles_loop-stores k (suc n) i j rest (fetch n s).0 db' total' accepted
          (λ m h. rw (shift m) at (free (suc m) (omega arith))) here (rw (shift i) at fetched) found
          same in
      elim (Ended-cases (fetch n s).1) [
        | inl stuck ↦ absurd (free 0 (omega arith) (rw (zero_add n) stuck))
        | inr (inl (err, failed)) ↦ rw (candles_loop, failed) (later db total)
        | inr (inr (cs, ok)) ↦
            rw
              (
                candles_loop,
                ok,
                send_accepted n (map (candle_of coin' interval') cs) db (accepted n),
              )
              (later _ _)
      ]

module _ {ℓ κ ν} {S : Type ℓ} {E : Type κ} {F : Type ν} ⦃d : Float F⦄ (limiter : RateLimiter S E)
    (calls : ℕ → Call E) (collate : String → String → Bool)
    (decode : Bytes → Option (List (Requests.Candle F))) where
  -- Where the active coins are read and the database accepts the statements, every candle that the exchange
  -- gives is stored: if the call for a coin and an interval returns candles, then after the job there is a
  -- candle with this coin, this interval and the time of each of them, in microseconds. That other calls fail
  -- does not matter, as long as those before it return.
  pub ingest_candles-HasCandle :
      (answers : ℕ → ℕ → Option String) (days : ℤ) (intervals : List String) (end : ℕ) (s : S)
      (db : Database F) (i j : ℕ) (coin interval : String) (candles : List (Requests.Candle F))
      (c : Requests.Candle F)
      → let fetch = fetch_candles limiter calls collate none decode days end in
        ((m m' : ℕ) → answers m m' ≡ none)
        → ((m : ℕ) → m < i → (fetch m (state_before fetch answers 0 m s)).1 ≢ blocked)
        → get_elem? (pairs (active_coins collate none db).0 intervals) i ≡ some (coin, interval)
        → (fetch i (state_before fetch answers 0 i s)).1 ≡ returned (value candles)
        → get_elem? candles j ≡ some c
        → HasCandle
            (coin, interval, micros (unix_milli c.time))
            (ingest_candles limiter calls collate none decode answers days intervals end
              (s, db)).0.1
  unfolding ingest_candles active_coins
  ingest_candles-HasCandle answers days intervals end s db i j coin interval candles c accepted free
        here fetched found =
      candles_loop-stores (fetch_candles limiter calls collate none decode days end) answers _ 0 i j
        (pairs (active_coins collate none db).0 intervals) s db 0 accepted
        (λ m h. rw (add_zero m) (free m h)) here (rw (add_zero i) fetched) found refl
