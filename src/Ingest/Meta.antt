-- ===== src/Ingest/Meta.antt =====
-- `ingestMeta` of backend/internal/ingest/scheduler.go: the markets and snapshots that it makes of the
-- exchange's universe and contexts, which are parallel lists.
use maelstromhub.Prelude.{
  ℕ, suc, ◌+◌, ◌≡◌, refl, true, Option, none, some, List, [], ◌∷◌, String, map, get_elem?,
}
use maelstromhub.Prelude.Int.{ℤ}
use maelstromhub.Models.{Market, MarketSnapshot}

-- `raw` is the JSON that `store.Raw` makes of the row.
pub record UniverseItem : Type 0 where
  pub name : String
  pub sz_decimals : ℤ
  pub max_leverage : ℤ
  pub raw : List ℕ

pub record AssetCtx {ℓ} (F : Type ℓ) : Type ℓ where
  pub day_ntl_vlm : F
  pub funding : F
  pub mark_px : F
  pub mid_px : F
  pub open_interest : F
  pub oracle_px : F
  pub premium : F
  pub prev_day_px : F
  pub raw : List ℕ

abbrev pub market_of : UniverseItem → Market
market_of u = record {
  coin = u.name;
  name = u.name;
  sz_decimals = u.sz_decimals;
  max_leverage = u.max_leverage;
  is_active = true;
  raw_meta = u.raw;
}

module _ {ℓ} {F : Type ℓ} where
  abbrev pub snapshot_of : ℕ → UniverseItem → AssetCtx F → MarketSnapshot F
  snapshot_of now u c = record {
    time = now;
    coin = u.name;
    mid = c.mid_px;
    mark_px = c.mark_px;
    oracle_px = c.oracle_px;
    prev_day_px = c.prev_day_px;
    day_ntl_vlm = c.day_ntl_vlm;
    open_interest = c.open_interest;
    funding = c.funding;
    premium = c.premium;
    raw_ctx = c.raw;
  }

  abbrev pub add_snapshot :
      ℕ → UniverseItem → Option (AssetCtx F) → List (MarketSnapshot F) → List (MarketSnapshot F)
  add_snapshot now u none rest = rest
  add_snapshot now u (some c) rest = snapshot_of now u c ∷ rest

  -- the loop from the index `i` on: `c` is `resp.Contexts[i]`, read only inside the slice
  unfoldable pub meta_rows :
      ℕ → List (AssetCtx F) → ℕ → List UniverseItem → List Market × List (MarketSnapshot F)
  meta_rows now contexts i [] = ([], [])
  meta_rows now contexts i (u ∷ universe) =
      let (markets, snaps) = meta_rows now contexts (suc i) universe in
      (market_of u ∷ markets, add_snapshot now u (get_elem? contexts i) snaps)

  -- What `ingestMeta` gives the store, and what it returns, where `UpsertMarkets` and `InsertMarketSnapshots`
  -- answer so.
  abbrev pub after_markets :
      (List (MarketSnapshot F) → ℕ × Option String)
      → List (MarketSnapshot F)
      → ℕ × Option String
      → List (MarketSnapshot F) × (ℕ × Option String)
  after_markets insert snaps (count, some e) = ([], (count, some e))
  after_markets insert snaps (count, none) =
      let (written, err) = insert snaps in (snaps, (count + written, err))

  unfoldable pub ingest_meta :
      ℕ
      → List UniverseItem
      → List (AssetCtx F)
      → (List Market → ℕ × Option String)
      → (List (MarketSnapshot F) → ℕ × Option String)
      → List Market × (List (MarketSnapshot F) × (ℕ × Option String))
  ingest_meta now universe contexts upsert insert =
      let (markets, snaps) = meta_rows now contexts 0 universe in
      (markets, after_markets insert snaps (upsert markets))

  -- the snapshots of two lists, item by item
  abbrev pub paired : ℕ → List UniverseItem → List (AssetCtx F) → List (MarketSnapshot F)
  paired now [] cs = []
  paired now (u ∷ us) [] = []
  paired now (u ∷ us) (c ∷ cs) = snapshot_of now u c ∷ paired now us cs

  rows_none :
      (now : ℕ) (i : ℕ) (universe : List UniverseItem)
      → meta_rows now [] i universe ≡ (map market_of universe, [])
  unfolding meta_rows
  rows_none now i [] = refl
  rows_none now i (u ∷ universe) = rw (rows_none now (suc i) universe)

  rows_shift :
      (now : ℕ) (c : AssetCtx F) (contexts : List (AssetCtx F)) (i : ℕ)
      (universe : List UniverseItem)
      → meta_rows now (c ∷ contexts) (suc i) universe ≡ meta_rows now contexts i universe
  unfolding meta_rows
  rows_shift now c contexts i [] = refl
  rows_shift now c contexts i (u ∷ universe) = rw (rows_shift now c contexts (suc i) universe)

  meta_rows-paired :
      (now : ℕ) (universe : List UniverseItem) (contexts : List (AssetCtx F))
      → meta_rows now contexts 0 universe ≡ (map market_of universe, paired now universe contexts)
  unfolding meta_rows
  meta_rows-paired now [] contexts = refl
  meta_rows-paired now (u ∷ universe) [] = rw (rows_none now 1 universe)
  meta_rows-paired now (u ∷ universe) (c ∷ contexts) =
      rw (rows_shift now c contexts 0 universe, meta_rows-paired now universe contexts)

  -- The job gives the store one market for each item of the universe, and then, if that succeeds, a snapshot for
  -- each item that has a context, made of the two: a universe or a list of contexts that is longer than the other
  -- is cut off. It returns what the store answers, with the numbers of rows added up.
  pub ingest_meta-paired :
      (now : ℕ) (universe : List UniverseItem) (contexts : List (AssetCtx F))
      (upsert : List Market → ℕ × Option String)
      (insert : List (MarketSnapshot F) → ℕ × Option String)
      → ingest_meta now universe contexts upsert insert ≡ (
        map market_of universe,
        after_markets insert (paired now universe contexts) (upsert (map market_of universe)),
      )
  unfolding ingest_meta
  ingest_meta-paired now universe contexts upsert insert =
      rw (meta_rows-paired now universe contexts)
