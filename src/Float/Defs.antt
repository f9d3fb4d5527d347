-- ===== src/Float/Defs.antt =====
-- The operations on float64 and the functions of Go's `math` and `time` that the sources call.
use maelstromhub.Prelude.{ℕ, suc, Bool, not, ◌&&◌, ◌||◌, if◌then◌else◌, ◌≡◌, true}
use maelstromhub.Prelude.Int.{ℤ, pos, negsuc}

pub record Float {ℓ} (F : Type ℓ) : Type ℓ where
  pub decimal : ℕ → ℕ → F
  pub inf : F
  pub nan : F
  pub neg : F → F
  pub add : F → F → F
  pub sub : F → F → F
  pub mul : F → F → F
  pub div : F → F → F
  pub lt : F → F → Bool
  pub le : F → F → Bool
  pub eq : F → F → Bool
  pub signbit : F → Bool
  pub sqrt : F → F
  pub log : F → F
  pub log10 : F → F
  pub ceil : F → F
  -- `int(f)`
  pub trunc : F → ℤ
  -- `Duration.Seconds` of a number of nanoseconds
  pub seconds : ℕ → F

module _ {ℓ} {F : Type ℓ} ⦃d : Float F⦄ where
  open d use {decimal, inf, nan, neg, lt, eq, signbit}

  -- a whole number
  abbrev pub num : ℕ → F
  num n = decimal n 0

  abbrev pub of_int : ℤ → F
  of_int (pos n) = num n
  of_int (negsuc n) = neg (num (suc n))

  abbrev pub is_nan : F → Bool
  is_nan x = not (eq x x)

  -- `math.Abs`
  unfoldable pub abs : F → F
  abs x = if signbit x then neg x else x

  -- `math.Max`: +Inf wins over NaN, NaN over the rest, and +0 over -0.
  unfoldable pub max : F → F → F
  max x y =
      if eq x inf || eq y inf
      then inf
      else if is_nan x || is_nan y
      then nan
      else if eq x (num 0) && eq x y
      then (if signbit x then y else x)
      else if lt y x
      then x
      else y

  -- `math.Min`: -Inf wins over NaN, NaN over the rest, and -0 over +0.
  unfoldable pub min : F → F → F
  min x y =
      if eq x (neg inf) || eq y (neg inf)
      then neg inf
      else if is_nan x || is_nan y
      then nan
      else if eq x (num 0) && eq x y
      then (if signbit x then x else y)
      else if lt x y
      then x
      else y

module _ {ℓ} {F : Type ℓ} ⦃d : Float F⦄ where
  infix 4 ◌≼◌ ◌≺◌
  abbrev pub ◌≼◌ : F → F → Type 0
  x ≼ y = d.le x y ≡ true

  abbrev pub ◌≺◌ : F → F → Type 0
  x ≺ y = d.lt x y ≡ true
