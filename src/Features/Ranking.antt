-- ===== src/Features/Ranking.antt =====
-- What `NormalizeCrossSection` (backend/internal/features/calc.go) makes of the least liquid market.
use maelstromhub.Prelude.{
  ℕ, ◌≡◌, refl, true, arith, List, [], ◌∷◌, map, All, get_elem?, get_elem?-map, All-get_elem?,
  All-imp, some, ◌∙◌, ap, sym,
}
use mathlib.Core.Option
use mathlib.Core.Path.{subst}
use maelstromhub.Float.{Float, num, ◌≼◌, ◌≺◌}
use maelstromhub.Float.Laws.{IsOrdered, IsArithmetic}
use maelstromhub.Float.Order
use maelstromhub.Models.{Feature}
use maelstromhub.Features.{classify, rated, labelled}
use maelstromhub.Features.Stats.{min_max}
use maelstromhub.Features.Stats.Sorting.{min_max_bounds}
use maelstromhub.Features.Scores.{clamp_bounds}
use maelstromhub.Features.CrossSection.{
  rescaled, normalize, set_rank, set_liquidity, set_oi, set_volume, normalize_cross_section,
}

module _ {ℓ} {F : Type ℓ} ⦃d : Float F⦄ where
  -- what `normalize` writes at an index
  pub normalize-get_elem? :
      (value : Feature F → F) (set : F → Feature F → Feature F) (fs : List (Feature F)) (i : ℕ)
      {f : Feature F}
      → get_elem? fs i ≡ some f
      → let (low, high) = min_max (map value fs) in
        get_elem? (normalize value set fs) i ≡ some (set (rescaled low high (value f)) f)
  unfolding normalize
  normalize-get_elem? value set fs i h = get_elem?-map _ fs i h

  liquidity-set_rank :
      (r : Feature F → F) (fs : List (Feature F))
      → map (λ f. f.liquidity_score) (map (λ f. set_rank (r f) f) fs)
        ≡ map (λ f. f.liquidity_score) fs
  liquidity-set_rank r [] = refl
  liquidity-set_rank r (f ∷ fs) = ap (◌∷◌ f.liquidity_score) (liquidity-set_rank r fs)

  classify_illiquid :
      (f : Feature F) → d.lt f.liquidity_score (num 20) ≡ true → classify f ≡ "ignore_low_liquidity"
  unfolding classify
  classify_illiquid f h = ground arith

  -- a score of the range 0 to 100
  abbrev pub InRange : Feature F → Type 0
  InRange f = (num 0 ≼ f.liquidity_score) × (f.liquidity_score ≼ num 100)

  All-liquidity :
      (P : F → Type 0) (fs : List (Feature F))
      → All (λ f. P f.liquidity_score) fs
      → All P (map (λ f. f.liquidity_score) fs)
  All-liquidity P [] h = tt
  All-liquidity P (f ∷ fs) h = (h.0, All-liquidity P fs h.1)

  All-of_map :
      (P : F → Type 0) (fs : List (Feature F))
      → All P (map (λ f. f.liquidity_score) fs)
      → All (λ f. P f.liquidity_score) fs
  All-of_map P [] h = tt
  All-of_map P (f ∷ fs) h = (h.0, All-of_map P fs h.1)

module _ {ℓ} {F : Type ℓ} ⦃d : Float F⦄ (order : IsOrdered F) (laws : IsArithmetic F) where
  open d use {sub, mul, div, lt, le, inf}
  open order use {refl_of_le, le_trans, decimal_mono, decimal_finite, num_lt, eq-eq}
  open laws use {
    sub_nonpos, sub_shrinks, sub_pos, div_mono, zero_div, mul_mono, num_mul, div_nonneg, mul_nonneg,
  }

  -- the share of the range that the least value has is 0
  share_least :
      (low high v : F)
      → num 0 ≼ low
      → low ≼ v
      → v ≼ low
      → low ≺ high
      → high ≺ inf
      → let share = div (sub v low) (sub high low) in (num 0 ≼ share) × (share ≼ num 0)
  share_least low high v nonneg below above apart finite =
      let v_finite =
        Order.lt_of_le_lt order v high inf
          (le_trans v low high above (Order.le_of_lt order low high apart)) finite in
      let none_left =
        sub_nonpos v low (le_trans (num 0) low v nonneg below) above
          (Order.lt_of_lt_le order low high inf apart (Order.le_of_lt order high inf finite)) in
      let some_left = (sub_shrinks v low nonneg below v_finite).0 in
      let range = sub_pos high low nonneg apart finite in
      let range_finite =
        Order.lt_of_le_lt order (sub high low) high inf
          (sub_shrinks high low nonneg (Order.le_of_lt order low high apart) finite).1 finite in
      (
        div_nonneg (sub v low) (sub high low) some_left range range_finite,
        le_trans _ _ _
            (div_mono (sub v low) (num 0) (sub high low) some_left none_left range range_finite)
            (zero_div (sub high low) range),
      )

  rescaled_least :
      (low high v : F)
      → num 0 ≼ low
      → low ≼ v
      → v ≼ low
      → low ≺ high
      → high ≺ inf
      → rescaled low high v ≼ num 0
  unfolding rescaled
  rescaled_least low high v nonneg below above apart finite =
      let share = div (sub v low) (sub high low) in
      let (share_nonneg, share_none) = share_least low high v nonneg below above apart finite in
      let zero_finite = decimal_finite 0 0 (omega arith) in
      let zero_real = decimal_mono 0 0 0 (omega arith) in
      let hundred = decimal_mono 0 100 0 (omega arith) in
      let hundred_finite = decimal_finite 100 0 (omega arith) in
      let product =
        mul_mono share (num 0) (num 100) share_nonneg share_none zero_finite hundred
          hundred_finite in
      let small : mul share (num 100) ≼ num 0 = rw (num_mul 0 100 (omega arith)) at product in
      ground (
        arith,
        eq-eq high low,
        Order.not_le_of_lt order low high apart,
        zero_real,
        (clamp_bounds order (mul share (num 100)) (num 0) (refl_of_le _ _ small).0).2 small
            zero_real,
      )

  -- the rescaled liquidity of a market that is least liquid, where another is more liquid
  least_rescaled :
      (fs : List (Feature F)) (i j : ℕ) (f g : Feature F)
      → All InRange fs
      → get_elem? fs i ≡ some f
      → All (λ h. f.liquidity_score ≼ h.liquidity_score) fs
      → get_elem? fs j ≡ some g
      → f.liquidity_score ≺ g.liquidity_score
      → let (low, high) = min_max (map (λ h. h.liquidity_score) fs) in
        rescaled low high f.liquidity_score ≼ num 0
  least_rescaled [] i j f g range at_f least at_g more = cc
  least_rescaled (x ∷ xs) i j f g range at_f least at_g more =
      let fs = x ∷ xs in
      let liquidity = λ (h : Feature F). h.liquidity_score in
      let rest = map liquidity xs in
      let (low, high) = min_max (liquidity x ∷ rest) in
      let real =
        All-imp InRange (λ h. liquidity h ≼ liquidity h) fs (λ h r. (refl_of_le _ _ r.0).1) range in
      let positive = All-imp InRange (λ h. num 0 ≼ liquidity h) fs (λ h r. r.0) range in
      let capped = All-imp InRange (λ h. liquidity h ≼ num 100) fs (λ h r. r.1) range in
      let (below, above, among) =
        min_max_bounds order (liquidity x) rest (All-liquidity (λ v. v ≼ v) fs real) in
      let f_above = All-get_elem? _ fs i (All-of_map (λ v. low ≼ v) fs below) at_f in
      let f_below = (among (λ v. f.liquidity_score ≼ v) (All-liquidity _ fs least)).0 in
      let g_below = All-get_elem? _ fs j (All-of_map (λ v. v ≼ high) fs above) at_g in
      rescaled_least low high f.liquidity_score
        (among (λ v. num 0 ≼ v) (All-liquidity _ fs positive)).0 f_above f_below
        (Order.lt_of_lt_le order _ _ _ (Order.lt_of_le_lt order _ _ _ f_above more) g_below)
        (Order.lt_of_le_lt order _ _ _ (among (λ v. v ≼ num 100) (All-liquidity _ fs capped)).1
          (decimal_finite 100 0 (omega arith)))

  -- If the liquidity scores lie between 0 and 100 and are not all the same, the least liquid market is
  -- labelled "ignore_low_liquidity", however liquid it is: its rescaled score is 0.
  pub least_liquid_ignored :
      (fs : List (Feature F)) (i j : ℕ) (f g : Feature F)
      → All InRange fs
      → get_elem? fs i ≡ some f
      → All (λ h. f.liquidity_score ≼ h.liquidity_score) fs
      → get_elem? fs j ≡ some g
      → f.liquidity_score ≺ g.liquidity_score
      → Option.map (λ h. h.regime_label) (get_elem? (normalize_cross_section fs) i)
        ≡ some "ignore_low_liquidity"
  unfolding normalize_cross_section normalize
  least_liquid_ignored fs i j f g range at_f least at_g more =
      let (low, high) = min_max (map (λ h. h.return_24h) fs) in
      let rank = λ (h : Feature F). rescaled low high h.return_24h in
      let ranked = map (λ h. set_rank (rank h) h) fs in
      let at_ranked = normalize-get_elem? (λ h. h.return_24h) set_rank fs i at_f in
      let at_liquid =
        normalize-get_elem? (λ h. h.liquidity_score) set_liquidity ranked i at_ranked in
      let at_oi = normalize-get_elem? (λ h. h.oi_anomaly_score) set_oi _ i at_liquid in
      let at_volume = normalize-get_elem? (λ h. h.volume_anomaly_score) set_volume _ i at_oi in
      let at_end = get_elem?-map (λ h. labelled (rated h)) _ i at_volume in
      let none_left =
        subst (λ vs. rescaled (min_max vs).0 (min_max vs).1 f.liquidity_score ≼ num 0)
          (sym (liquidity-set_rank rank fs))
          (least_rescaled fs i j f g range at_f least at_g more) in
      ap (Option.map (λ h. h.regime_label)) at_end
      ∙ ap some (
          classify_illiquid _ (
            Order.lt_of_le_lt order _ (num 0) (num 20) none_left
              (num_lt 0 20 (omega arith) (omega arith))))
