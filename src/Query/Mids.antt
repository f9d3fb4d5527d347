-- ===== src/Query/Mids.antt =====
-- What the snapshots of `ingestMids` (backend/internal/ingest/scheduler.go) do to the queries of
-- backend/internal/store/query.go, which read the latest snapshot of a coin.
use mathlib.Core.List.{foldl}
use text.Mathlib.Text.{◌==◌ as str_eq}
use maelstromhub.Prelude.{
  ℕ, ◌<◌, ◌≡◌, refl, Bool, true, Option, none, some, List, [], ◌∷◌, String, map, arith, All,
  All-imp, ◌⊎◌, inl, inr, Bool-cases, ◌∙◌,
}
use maelstromhub.Prelude.Dict.{Dict, lookup}
use maelstromhub.Float.{Float, num}
use maelstromhub.Models.{MarketSnapshot}
use maelstromhub.Store.{
  Database, micros, same_moment, snapshot_key, stored_snapshot, put_snapshot,
  insert_market_snapshots,
}
use maelstromhub.Store.Batch.{send_batch}
use maelstromhub.Store.Rows.{select, last_or, last_or_of_same, select-all, upsert-All}
use maelstromhub.Store.Keys.{same_moment_iff}
use maelstromhub.Ingest.Mids.{mid_snapshot, ingest_mids}
use maelstromhub.Query.Rows.{rows_where, newest, newest_snapshot}
use maelstromhub.Query.Latest.{
  Holds, IsSince, newest-Holds, rows_where-All, time_of, select-IsSince,
}

module _ {ℓ} {F : Type ℓ} ⦃d : Float F⦄ where
  -- a snapshot that knows no volume, no open interest and no funding
  abbrev pub IsBare : MarketSnapshot F → Type ℓ
  IsBare s = (s.day_ntl_vlm ≡ num 0) × (s.open_interest ≡ num 0) × (s.funding ≡ num 0)

  -- older than `t`, or of that time and bare
  abbrev OldOrBare : ℕ → MarketSnapshot F → Type ℓ
  OldOrBare t s = (s.time < t) ⊎ ((s.time ≡ t) × IsBare s)

  put_mids-OldOrBare :
      (now : ℕ) (mids : Dict F) (rows : List (MarketSnapshot F))
      → All (OldOrBare (micros now)) rows
      → All (OldOrBare (micros now)) (foldl put_snapshot rows (map (mid_snapshot now) mids))
  put_mids-OldOrBare now [] rows h = h
  put_mids-OldOrBare now (m ∷ mids) rows h = put_mids-OldOrBare now mids _ (
      upsert-All snapshot_key same_moment (OldOrBare (micros now)) rows
        (stored_snapshot (mid_snapshot now m)) h (inr (refl, (refl, refl, refl))))

  put_mids-some :
      (now : ℕ) (coin : String) (mids : Dict F) (other : Option (MarketSnapshot F)) {mid : F}
      → lookup coin mids ≡ some mid
      → (row : MarketSnapshot F) × (last_or snapshot_key same_moment
            (coin, micros now)
            other
            (map stored_snapshot (map (mid_snapshot now) mids))
          ≡ some row)
  unfolding lookup
  put_mids-some now coin [] other e = cc
  put_mids-some now coin ((c, m) ∷ mids) other e = elim (Bool-cases (str_eq c coin)) [
    | inl hit ↦
        let found : same_moment (c, micros now) (coin, micros now) ≡ true = ground (arith, hit) in
        last_or_of_same snapshot_key same_moment (coin, micros now)
          (stored_snapshot (mid_snapshot now (c, m))) other
          (map stored_snapshot (map (mid_snapshot now) mids)) found
    | inr miss ↦ put_mids-some now coin mids _ (rw miss at e)
  ]

  since-IsBare :
      (t : ℕ) (found : Option (MarketSnapshot F))
      → IsSince time_of t found
      → Holds time_of (OldOrBare t) found
      → (s : MarketSnapshot F) × (found ≡ some s) × (s.time ≡ t) × IsBare s
  since-IsBare t none h k = absurd h
  since-IsBare t (some s) h (inl old) = absurd (omega arith)
  since-IsBare t (some s) h (inr (now, bare)) = (s, refl, now, bare)

  -- After the middle prices are stored, at a time later than all snapshots so far, the latest snapshot of every
  -- coin that has one knows no volume, no open interest and no funding: each is 0.
  pub ingest_mids-IsBare :
      (now : ℕ) (mids : Dict F) (answers : ℕ → Option String) (is_set : Bool) (db : Database F)
      (coin : String) (mid : F)
      → lookup coin mids ≡ some mid
      → All (λ s. s.time < micros now) db.market_snapshots
      → (ingest_mids now mids answers is_set db).1.1 ≡ none
      → (s : MarketSnapshot F) × (newest_snapshot coin (ingest_mids now mids answers is_set db).0
          ≡ some s)
        × (s.time ≡ micros now)
        × IsBare s
  unfolding ingest_mids insert_market_snapshots send_batch newest_snapshot
  ingest_mids-IsBare now mids answers is_set db coin mid has old ok =
      let t = micros now in
      let table = foldl put_snapshot db.market_snapshots (map (mid_snapshot now) mids) in
      let bare =
        put_mids-OldOrBare now mids db.market_snapshots
          (All-imp _ (OldOrBare t) db.market_snapshots (λ s h. inl h) old) in
      let (row, there) =
        put_mids-some now coin mids (select snapshot_key same_moment (coin, t) db.market_snapshots)
          has in
      let found =
        select-all snapshot_key same_moment same_moment_iff stored_snapshot (coin, t)
          (map (mid_snapshot now) mids) db.market_snapshots
        ∙ there in
      rw ok (
        since-IsBare t (newest time_of (rows_where (λ s. str_eq s.coin coin) table))
          (select-IsSince coin t table found)
          (newest-Holds time_of (OldOrBare t) _
            (rows_where-All time_of (OldOrBare t) (λ s. str_eq s.coin coin) table bare)))
