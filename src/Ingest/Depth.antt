-- ===== src/Ingest/Depth.antt =====
-- The depths of an order book (backend/internal/ingest/scheduler.go).
use mathlib.Core.List.{foldl}
use maelstromhub.Prelude.{ℕ, Bool, true, false, List, [], ◌∷◌, String, All, arith}
use maelstromhub.Float.{Float, num, ◌≼◌, ◌≺◌}
use maelstromhub.Float.Laws.{IsOrdered, IsArithmetic}
use maelstromhub.Ingest.Books.{
  BookLevel, L2Book, side, best, distance, add_level, depth_within, orderbook_snapshot,
}

module _ {ℓ} {F : Type ℓ} ⦃d : Float F⦄ where
  -- a finite price and a finite size, neither negative
  abbrev pub IsLevel : BookLevel F → Type 0
  IsLevel level =
      ((num 0 ≼ level.px) × (level.px ≺ d.inf)) × ((num 0 ≼ level.sz) × (level.sz ≺ d.inf))

module _ {ℓ} {F : Type ℓ} ⦃d : Float F⦄ (order : IsOrdered F) (laws : IsArithmetic F) where
  open d use {add, mul, le}
  open order use {le_trans, decimal_mono, refl_of_le}
  open laws use {add_grows, add_mono, mul_nonneg}

  -- A wider band counts no less, if it starts from no less.
  add_level_mono :
      (mid narrow wide : F) (bid : Bool) (t u : F) (level : BookLevel F)
      → narrow ≼ wide
      → IsLevel level
      → num 0 ≼ t
      → t ≼ u
      → (num 0 ≼ add_level mid narrow bid t level)
        × (add_level mid narrow bid t level ≼ add_level mid wide bid u level)
  add_level_mono mid narrow wide bid t u level w ((p, pf), (s, sf)) ht hu =
      let v = mul level.px level.sz in
      let v_nonneg = mul_nonneg level.px level.sz p pf s sf in
      ground (
        arith,
        le_trans (distance mid bid level.px) narrow wide,
        le_trans (num 0) t u,
        le_trans (num 0) t (add t v),
        le_trans t u (add u v),
        add_grows t v,
        add_grows u v,
        add_mono t u v v,
        v_nonneg,
        (refl_of_le (num 0) v v_nonneg).1,
      )

  depth_mono :
      (mid narrow wide : F) (bid : Bool) (levels : List (BookLevel F)) (t u : F)
      → narrow ≼ wide
      → All IsLevel levels
      → num 0 ≼ t
      → t ≼ u
      → (num 0 ≼ foldl (add_level mid narrow bid) t levels)
        × (foldl (add_level mid narrow bid) t levels ≼ foldl (add_level mid wide bid) u levels)
  depth_mono mid narrow wide bid [] t u w h ht hu = (ht, hu)
  depth_mono mid narrow wide bid (level ∷ levels) t u w (h, hs) ht hu =
      let (ht', hu') = add_level_mono mid narrow wide bid t u level w h ht hu in
      depth_mono mid narrow wide bid levels _ _ w hs ht' hu'

  pub depth_within_mono :
      (levels : List (BookLevel F)) (mid narrow wide : F) (bid : Bool)
      → narrow ≼ wide
      → All IsLevel levels
      → (num 0 ≼ depth_within levels mid narrow bid)
        × (depth_within levels mid narrow bid ≼ depth_within levels mid wide bid)
  unfolding depth_within
  depth_within_mono levels mid narrow wide bid w h =
      let zero_real = decimal_mono 0 0 0 (omega arith) in
      ground (
        arith,
        zero_real,
        depth_mono mid narrow wide bid levels (num 0) (num 0) w h zero_real zero_real,
      )

  -- If the prices and sizes of a book are finite and not negative, its depths are not negative, and a wider
  -- band never holds less than a narrower one, on either side.
  pub snapshot_depths :
      (now : ℕ) (coin : String) (book : L2Book F)
      → All IsLevel (side book.levels 0)
      → All IsLevel (side book.levels 1)
      → let s = orderbook_snapshot now coin book in
        ((num 0 ≼ s.bid_depth_10_bps)
          × (s.bid_depth_10_bps ≼ s.bid_depth_50_bps)
          × (s.bid_depth_50_bps ≼ s.bid_depth_100_bps))
        × ((num 0 ≼ s.ask_depth_10_bps)
            × (s.ask_depth_10_bps ≼ s.ask_depth_50_bps)
            × (s.ask_depth_50_bps ≼ s.ask_depth_100_bps))
  unfolding orderbook_snapshot
  snapshot_depths now coin book bids asks =
      let near = decimal_mono 10 50 0 (omega arith) in
      let far = decimal_mono 50 100 0 (omega arith) in
      let mid = d.div (add (best (side book.levels 0)) (best (side book.levels 1))) (num 2) in
      let (b0, b1) = depth_within_mono (side book.levels 0) mid (num 10) (num 50) true near bids in
      let (a0, a1) = depth_within_mono (side book.levels 1) mid (num 10) (num 50) false near asks in
      (
        (b0, b1, (depth_within_mono (side book.levels 0) mid (num 50) (num 100) true far bids).1),
        (a0, a1, (depth_within_mono (side book.levels 1) mid (num 50) (num 100) false far asks).1),
      )
