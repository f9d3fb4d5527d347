-- ===== src/Ingest/Pipeline.antt =====
-- `computeFeatures` of backend/internal/ingest/scheduler.go over the database: the candles that it reads, and the features
-- and flags that it leaves.
use maelstromhub.Prelude.{
  ℕ, zero, suc, ◌-◌, ◌*◌, ◌≤◌, ◌≡◌, refl, Bool, false, Option, none, some, List, [], ◌∷◌, String,
  ltb, length, get_elem?, get_elem?-map, map, arith, ◌∙◌, Bool-cases, ◌⊎◌, inl, inr,
}
use maelstromhub.Float.{Float}
use maelstromhub.Models.{Candle, Feature, Flag}
use maelstromhub.Features.{feature_time, calculate, from_candles, with_snapshots, with_scores}
use maelstromhub.Features.CrossSection.{normalize, normalize_cross_section}
use maelstromhub.Store.{
  Database, Written, micros, same_bar, feature_key, stored_feature, put_feature, upsert_features,
  insert_flags,
}
use maelstromhub.Store.Batch.{send_batch_accepted}
use maelstromhub.Store.Rows.{select, last_or-get_elem?, select-all}
use maelstromhub.Store.Keys.{same_bar_iff}
use maelstromhub.Query.Coins.{active_coins}
use maelstromhub.Query.Rows.{candles, rows_where, in_range}
use maelstromhub.Query.Range.{IsLatest, feature_time-candles}
use maelstromhub.Ingest.Compute.{Sources, input_of, calculated, compute_features}

-- What one run of the job meets: the errors of its statements, the readings of the clock, and the database's time.
pub record Surroundings : Type 0 where
  pub coins_error : Option String
  pub candles_error : String → Option String
  pub start : String → ℕ
  pub end : String → ℕ
  pub now : String → ℕ
  pub updated : String → ℕ
  pub stored_at : ℕ
  pub feature_errors : ℕ → Option String
  pub flag_errors : ℕ → Option String

-- eight days
abbrev pub eight_days : ℕ
eight_days = 8 * 24 * 3600 * 1_000_000_000

abbrev pub coins_or {ℓ} : {A : Type ℓ} → A × Option String → A ⊎ String
coins_or (coins, none) = inl coins
coins_or (coins, some e) = inr e

module _ {ℓ} {F : Type ℓ} ⦃d : Float F⦄ where
  -- the hourly candles of the last eight days
  abbrev pub recent : Surroundings → Database F → String → List (Candle F)
  recent c db coin =
      (candles (c.candles_error coin) coin "1h" (c.start coin - eight_days) (c.end coin) db).0

  abbrev pub sources_of : Surroundings → Database F → Sources F
  sources_of c db = record { candles = recent c db; now = c.now; updated = c.updated }

  abbrev pub with_flags : Surroundings → Option String → List Flag → Database F → Database F
  with_flags c none flags db = (insert_flags c.flag_errors flags db).0
  with_flags c (some e) flags db = db

  -- `computeFeatures`; without coins no statement is sent
  abbrev pub after_coins : Surroundings → List String ⊎ String → Database F → Written F
  after_coins c (inr e) db = (db, (0, some e))
  after_coins c (inl coins) db =
      let write = upsert_features c.stored_at c.feature_errors in
      let computed = compute_features (sources_of c db) (inl coins) (λ fs. (write fs db).1) in
      (
        with_flags c computed.err computed.inserted (write computed.upserted db).0,
        (computed.rows, computed.err),
      )

  unfoldable pub compute_features_job :
      (String → String → Bool) → Surroundings → Database F → Written F
  compute_features_job collate c db =
      after_coins c (coins_or (active_coins collate c.coins_error db)) db

  -- There is a feature with this coin, this interval and this time.
  abbrev pub HasFeature : String × String × ℕ → Database F → Type ℓ
  HasFeature k db = (row : Feature F) × (select feature_key same_bar k db.features ≡ some row)

  -- A coin with two candles has a place in the list of features.
  calculated-get_elem? :
      (src : Sources F) (coins : List String) (i : ℕ) {coin : String}
      → get_elem? coins i ≡ some coin
      → 2 ≤ length (src.candles coin)
      → (j : ℕ) × (get_elem? (calculated src coins) j
          ≡ some (calculate (src.now coin) (src.updated coin) (input_of coin (src.candles coin))))
  unfolding calculated
  calculated-get_elem? src [] i e enough = cc
  calculated-get_elem? src (first ∷ coins) zero {coin = coin} e enough =
      let same : first ≡ coin = cc in
      let two : ltb (length (src.candles first)) 2 ≡ false = rw same (ground arith) in
      (0, rw (calculated, two, same))
  calculated-get_elem? src (first ∷ coins) (suc i) e enough =
      let (j, found) = calculated-get_elem? src coins i e enough in
      elim (Bool-cases (ltb (length (src.candles first)) 2)) [
        | inl few ↦ (j, rw few found)
        | inr more ↦ (suc j, rw more found)
      ]

  -- what is at a place has a key
  abbrev HasKey : List (Feature F) → ℕ → String × String × ℕ → Type ℓ
  HasKey fs j k = (f : Feature F) × (get_elem? fs j ≡ some f) × (feature_key f ≡ k)

  normalize-HasKey :
      (value : Feature F → F) (set : F → Feature F → Feature F) (fs : List (Feature F)) (j : ℕ)
      (k : String × String × ℕ)
      → ((v : F) (f : Feature F) → feature_key (set v f) ≡ feature_key f)
      → HasKey fs j k
      → HasKey (normalize value set fs) j k
  unfolding normalize
  normalize-HasKey value set fs j k keeps (f, found, same) =
      (_, get_elem?-map _ fs j found, keeps _ f ∙ same)

  normalize_cross_section-HasKey :
      (fs : List (Feature F)) (j : ℕ) (k : String × String × ℕ)
      → HasKey fs j k
      → HasKey (normalize_cross_section fs) j k
  unfolding normalize_cross_section
  normalize_cross_section-HasKey fs j k h =
      let ranked = normalize-HasKey _ _ fs j k (λ v f. refl) h in
      let liquid = normalize-HasKey _ _ _ j k (λ v f. refl) ranked in
      let open_interest = normalize-HasKey _ _ _ j k (λ v f. refl) liquid in
      let (f, found, same) = normalize-HasKey _ _ _ j k (λ v f. refl) open_interest in
      (_, get_elem?-map _ _ j found, same)

  upsert_features-HasFeature :
      (now : ℕ) (answers : ℕ → Option String) (fs : List (Feature F)) (db : Database F) (j : ℕ)
      (coin interval : String) (time : ℕ)
      → ((i : ℕ) → answers i ≡ none)
      → HasKey fs j (coin, interval, time)
      → HasFeature (coin, interval, micros time) (upsert_features now answers fs db).0
  unfolding upsert_features
  upsert_features-HasFeature now answers fs db j coin interval time accepted (f, found, same) =
      let k : String × String × ℕ = (coin, interval, micros time) in
      let stored : feature_key (stored_feature now f) ≡ k = cc in
      let (last, there) =
        last_or-get_elem? feature_key same_bar k (map (stored_feature now) fs)
          (select feature_key same_bar k db.features) j
          (get_elem?-map (stored_feature now) fs j found) ((same_bar_iff _ k).1 stored) in
      rw (send_batch_accepted (put_feature now) answers fs db.features (λ i h. accepted i)) (
        last,
        select-all feature_key same_bar same_bar_iff (stored_feature now) k fs db.features ∙ there,
      )

  with_flags-features :
      (c : Surroundings) (err : Option String) (flags : List Flag) (db : Database F)
      → (with_flags c err flags db).features ≡ db.features
  unfolding insert_flags
  with_flags-features c none flags db = refl
  with_flags-features c (some e) flags db = refl

  calculate-key :
      (now updated : ℕ) (coin : String) (rows : List (Candle F))
      → feature_key (calculate now updated (input_of coin rows))
        ≡ (coin, "1h", feature_time now rows)
  unfolding calculate from_candles with_snapshots with_scores
  calculate-key now updated coin rows = refl

  computed-HasFeature :
      (collate : String → String → Bool) (c : Surroundings) (db : Database F) (i : ℕ)
      (coin : String)
      → c.coins_error ≡ none
      → ((j : ℕ) → c.feature_errors j ≡ none)
      → get_elem? (active_coins collate none db).0 i ≡ some coin
      → 2 ≤ length (recent c db coin)
      → HasFeature
          (coin, "1h", micros (feature_time (c.now coin) (recent c db coin)))
          (compute_features_job collate c db).0
  unfolding compute_features_job compute_features active_coins
  computed-HasFeature collate c db i coin reads accepted listed enough =
      let src = sources_of c db in
      let coins = (active_coins collate none db).0 in
      let time = feature_time (c.now coin) (recent c db coin) in
      let (j, found) = calculated-get_elem? src coins i listed enough in
      let key =
        normalize_cross_section-HasKey (calculated src coins) j (coin, "1h", time)
          (_, found, calculate-key (c.now coin) (c.updated coin) coin (recent c db coin)) in
      let stored =
        upsert_features-HasFeature c.stored_at c.feature_errors
          (normalize_cross_section (calculated src coins)) db j coin "1h" time accepted key in
      rw (reads, with_flags-features) stored

  -- the stored candles that the job reads for a coin: the hourly ones of the last eight days
  abbrev pub read_for : Surroundings → Database F → String → List (Candle F)
  read_for c db coin =
      rows_where (in_range coin "1h" (c.start coin - eight_days) (c.end coin)) db.candles

  -- Where the coins are read and the database accepts the features, every active coin whose candles can be read and
  -- that has at least two hourly candles stored in the last eight days has a feature after the job, with the
  -- time of the latest of these candles. That the candles of other coins cannot be read, or that the flags are
  -- refused, makes no difference.
  pub compute_features_job-HasFeature :
      (collate : String → String → Bool) (c : Surroundings) (db : Database F) (i : ℕ)
      (coin : String)
      → c.coins_error ≡ none
      → c.candles_error coin ≡ none
      → ((j : ℕ) → c.feature_errors j ≡ none)
      → get_elem? (active_coins collate none db).0 i ≡ some coin
      → 2 ≤ length (read_for c db coin)
      → (time : ℕ) × IsLatest time (read_for c db coin)
        × HasFeature (coin, "1h", micros time) (compute_features_job collate c db).0
  compute_features_job-HasFeature collate c db i coin reads reads' accepted listed enough =
      let (same, latest) =
        feature_time-candles (c.now coin) (c.candles_error coin) coin "1h"
          (c.start coin - eight_days) (c.end coin) db reads' (omega (arith, enough)) in
      (
        feature_time (c.now coin) (recent c db coin),
        latest,
        computed-HasFeature collate c db i coin reads accepted listed (omega (arith, same, enough)),
      )
