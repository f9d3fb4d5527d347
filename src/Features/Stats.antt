-- ===== src/Features/Stats.antt =====
-- The statistics of backend/internal/features/calc.go. Go's `float64` loops are folds from the left.
pub mod Sorting
use mathlib.Core.List.{foldl}
use maelstromhub.Prelude.{
  ℕ, zero, suc, ◌+◌, ◌-◌, Bool, true, false, not, ◌&&◌, ◌||◌, List, [], ◌∷◌, map, length, drop, leb,
  ltb, if◌then◌else◌,
}
use maelstromhub.Float
use maelstromhub.Float.{Float, num, is_nan}
use maelstromhub.Models.{Candle}

-- `for ... { if len(values) == 0 ... }`
abbrev pub is_empty {ℓ} : {A : Type ℓ} → List A → Bool
is_empty [] = true
is_empty (x ∷ xs) = false

-- `values[i]`, read only inside the slice
abbrev pub at {ℓ} : {A : Type ℓ} → A → List A → ℕ → A
at default [] i = default
at default (x ∷ xs) zero = x
at default (x ∷ xs) (suc i) = at default xs i

-- `tail`: the last n values
unfoldable pub tail {ℓ} : {A : Type ℓ} → List A → ℕ → List A
tail values n = if leb (length values) n then values else drop (length values - n) values

module _ {ℓ} {F : Type ℓ} ⦃d : Float F⦄ where
  open d use {decimal, add, sub, mul, div, lt, eq, sqrt, log}

  abbrev pub sum : List F → F
  sum = foldl add (num 0)

  unfoldable pub last : List F → F
  last values = if is_empty values then num 0 else at (num 0) values (length values - 1)

  unfoldable pub avg : List F → F
  avg values = if is_empty values then num 0 else div (sum values) (num (length values))

  -- the sum of the squares of `v - m`
  abbrev pub squares : F → List F → F
  squares m = foldl (λ acc v. add acc (mul (sub v m) (sub v m))) (num 0)

  unfoldable pub std : List F → F
  std values =
      if is_empty values
      then num 0
      else sqrt (div (squares (avg values) values) (num (length values)))

  unfoldable pub zscore : F → List F → F
  zscore value values =
      if eq (std values) (num 0) then num 0 else div (sub value (avg values)) (std values)

  unfoldable pub ratio : F → F → F
  ratio a b = if eq b (num 0) then num 0 else div a b

  unfoldable pub return_n : List F → ℕ → F
  return_n values n =
      let past = at (num 0) values (length values - 1 - n) in
      if leb (length values) n || eq past (num 0)
      then num 0
      else sub (div (at (num 0) values (length values - 1)) past) (num 1)

  unfoldable pub returns : List F → List F
  returns [] = []
  returns (x ∷ []) = []
  returns (x ∷ y ∷ values) =
      let rest = returns (y ∷ values) in if eq x (num 0) then rest else sub (div y x) (num 1) ∷ rest

  -- `sort.Float64s`: in ascending order, NaN first
  abbrev pub less : F → F → Bool
  less x y = lt x y || (is_nan x && not (is_nan y))

  unfoldable pub insert_sorted : F → List F → List F
  insert_sorted x [] = x ∷ []
  insert_sorted x (y ∷ ys) = if less y x then y ∷ insert_sorted x ys else x ∷ y ∷ ys

  unfoldable pub sort : List F → List F
  sort [] = []
  sort (x ∷ xs) = insert_sorted x (sort xs)

  unfoldable pub min_max : List F → F × F
  min_max values =
      let sorted = sort values in
      if is_empty values
      then (num 0, num 0)
      else (at (num 0) sorted 0, at (num 0) sorted (length sorted - 1))

  unfoldable pub min : List F → F
  min values = (min_max values).0

  unfoldable pub max : List F → F
  max values = (min_max values).1

  -- `clamp` and `clamp01`
  unfoldable pub clamp : F → F
  clamp v = Float.max (num 0) (Float.min (num 100) v)

  unfoldable pub clamp01 : F → F
  clamp01 v = Float.max (num 0) (Float.min (num 1) v)

  -- the sum of `c.High - c.Low`
  abbrev pub ranges : List (Candle F) → F
  ranges = foldl (λ acc c. add acc (sub c.high c.low)) (num 0)

  unfoldable pub atr : List (Candle F) → F
  atr candles = if is_empty candles then num 0 else div (ranges candles) (num (length candles))

  unfoldable pub adx : List (Candle F) → F
  adx candles =
      let closes = map (λ c. c.close) candles in
      let move = Float.abs (sub (at (num 0) closes (length candles - 1)) (at (num 0) closes 0)) in
      if ltb (length candles) 2
      then num 0
      else if eq (ranges candles) (num 0)
      then num 0
      else clamp (mul (div move (ranges candles)) (num 100))

  -- the sum of `(values[i] - m) * (values[i-1] - m)`
  unfoldable pub lagged : F → F → List F → F
  lagged m acc [] = acc
  lagged m acc (x ∷ []) = acc
  lagged m acc (x ∷ y ∷ values) = lagged m (add acc (mul (sub y m) (sub x m))) (y ∷ values)

  unfoldable pub autocorr_lag1 : List F → F
  autocorr_lag1 values =
      let m = avg values in
      let den = squares m values in
      if ltb (length values) 3
      then num 0
      else if eq den (num 0)
      then num 0
      else div (lagged m (num 0) values) den

  unfoldable pub hurst : List F → F
  hurst values =
      let rs = div (sub (max values) (min values)) (Float.max (std values) (decimal 1 9)) in
      if ltb (length values) 20
      then decimal 5 1
      else clamp01 (add (div (log rs) (log (num (length values)))) (decimal 1 1))
