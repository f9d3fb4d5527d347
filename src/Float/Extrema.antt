-- ===== src/Float/Extrema.antt =====
-- Go's `math.Min` and `math.Max` on float64 choose one of their arguments, or an infinity.
use maelstromhub.Prelude.{◌≡◌, false, ◌⊎◌, arith}
use maelstromhub.Float.Defs.{Float, min, max, ◌≼◌}
use maelstromhub.Float.Laws.{IsOrdered}

module _ {ℓ} {F : Type ℓ} ⦃d : Float F⦄ where
  abbrev MinCases : F → F → Type ℓ
  MinCases x y =
      ((min x y ≡ x) × (x ≼ y))
      ⊎ ((min x y ≡ y) × (y ≼ x))
      ⊎ ((min x y ≡ d.neg d.inf) × ((x ≼ d.neg d.inf) ⊎ (y ≼ d.neg d.inf)))

  abbrev MaxCases : F → F → Type ℓ
  MaxCases x y =
      ((max x y ≡ x) × (y ≼ x))
      ⊎ ((max x y ≡ y) × (x ≼ y))
      ⊎ ((max x y ≡ d.inf) × ((d.inf ≼ x) ⊎ (d.inf ≼ y)))

module _ {ℓ} {F : Type ℓ} ⦃d : Float F⦄ (laws : IsOrdered F) where
  open d use {neg, inf, nan, decimal, eq, lt, le}
  open laws use {lt-eq, eq-eq, le_total, nan_le, refl_of_le, le_trans, decimal_mono, neg_inf_bottom}

  pub min_cases : (x y : F) → x ≼ x → y ≼ y → MinCases x y
  unfolding min
  min_cases x y hx hy = ground (
    arith,
    eq-eq x (neg inf),
    eq-eq y (neg inf),
    eq-eq x x,
    eq-eq y y,
    eq-eq x y,
    lt-eq x y,
    le_total x y hx hy,
  )

  pub max_cases : (x y : F) → x ≼ x → y ≼ y → MaxCases x y
  unfolding max
  max_cases x y hx hy = ground (
    arith,
    eq-eq x inf,
    eq-eq y inf,
    eq-eq x x,
    eq-eq y y,
    eq-eq x y,
    lt-eq y x,
    le_total x y hx hy,
  )

  pub min_nan : (x y : F) → le x (neg inf) ≡ false → le y y ≡ false → min x y ≡ nan
  unfolding min
  min_nan x y h k =
      ground (arith, eq-eq x (neg inf), eq-eq y (neg inf), eq-eq y y, refl_of_le y (neg inf))

  pub max_nan : (x y : F) → le inf x ≡ false → le y y ≡ false → max x y ≡ nan
  unfolding max
  max_nan x y h k = ground (arith, eq-eq x inf, eq-eq y inf, eq-eq y y, refl_of_le y inf)
