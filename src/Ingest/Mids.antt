-- ===== src/Ingest/Mids.antt =====
-- `ingestMids` of backend/internal/ingest/scheduler.go: a snapshot of the middle prices alone.
use maelstromhub.Prelude.{ℕ, Bool, Option, [], String, map}
use maelstromhub.Prelude.Dict.{Dict}
use maelstromhub.Float.{Float, num}
use maelstromhub.Models.{MarketSnapshot}
use maelstromhub.Store.{Database, Written, insert_market_snapshots}

module _ {ℓ} {F : Type ℓ} ⦃d : Float F⦄ where
  -- the other fields have the zero value
  abbrev pub mid_snapshot : ℕ → String × F → MarketSnapshot F
  mid_snapshot now (coin, mid) = record {
    time = now;
    coin = coin;
    mid = mid;
    mark_px = num 0;
    oracle_px = num 0;
    prev_day_px = num 0;
    day_ntl_vlm = num 0;
    open_interest = num 0;
    funding = num 0;
    premium = num 0;
    raw_ctx = [];
  }

  -- `ingestMids` for the answer `mids` of the exchange, whose order is that of the iteration
  unfoldable pub ingest_mids : ℕ → Dict F → (ℕ → Option String) → Bool → Database F → Written F
  ingest_mids now mids answers is_set db =
      insert_market_snapshots answers is_set (map (mid_snapshot now) mids) db
