-- ===== src/Float/Laws.antt =====
-- What the theorems rely on of float64: facts of IEEE 754 with rounding to nearest, each stated for
-- the operands where it holds. NaN is the value that is not `<=` itself.
use maelstromhub.Prelude.{ℕ, ◌+◌, ◌≤◌, ◌<◌, ◌^◌, ◌*◌, ◌≡◌, ◌⊎◌, false, not, ◌&&◌}
use maelstromhub.Float.Defs.{Float, num, ◌≼◌, ◌≺◌}

pub record IsOrdered {ℓ} (F : Type ℓ) ⦃d : Float F⦄ : Type ℓ where
  pub refl_of_le : (x y : F) → x ≼ y → (x ≼ x) × (y ≼ y)
  pub le_trans : (x y z : F) → x ≼ y → y ≼ z → x ≼ z
  pub le_total : (x y : F) → x ≼ x → y ≼ y → (x ≼ y) ⊎ (y ≼ x)
  pub lt-eq : (x y : F) → d.lt x y ≡ d.le x y && not (d.le y x)
  pub eq-eq : (x y : F) → d.eq x y ≡ d.le x y && d.le y x
  pub nan_le : (x : F) → d.le d.nan x ≡ false
  pub inf_top : (x : F) → x ≼ x → x ≼ d.inf
  pub neg_inf_bottom : (x : F) → x ≼ x → d.neg d.inf ≼ x
  -- decimals are finite, and rounding is monotone
  pub decimal_mono : (m n k : ℕ) → m ≤ n → d.decimal m k ≼ d.decimal n k
  pub decimal_finite : (n k : ℕ) → n < 2 ^ 63 → d.decimal n k ≺ d.inf
  -- whole numbers up to 2^53 are exact
  pub num_lt : (m n : ℕ) → m < n → n ≤ 2 ^ 53 → d.decimal m 0 ≺ d.decimal n 0
  pub neg_inf_lt : d.neg d.inf ≺ d.decimal 0 0
  pub neg_nonpos : (x : F) → d.decimal 0 0 ≼ x → d.neg x ≼ d.decimal 0 0
  pub decimal_pos : (n k : ℕ) → 0 < n → n < 2 ^ 63 → k ≤ 3 → d.decimal 0 0 ≺ d.decimal n k

pub record IsArithmetic {ℓ} (F : Type ℓ) ⦃d : Float F⦄ : Type ℓ where
  pub add_grows : (x y : F) → num 0 ≼ x → num 0 ≼ y → x ≼ d.add x y
  pub add_mono : (x y u v : F) → num 0 ≼ x → x ≼ y → num 0 ≼ u → u ≼ v → d.add x u ≼ d.add y v
  pub div_self : (x : F) → num 0 ≺ x → x ≺ d.inf → d.div x x ≡ num 1
  pub sub_shrinks :
      (x y : F) → num 0 ≼ y → y ≼ x → x ≺ d.inf → (num 0 ≼ d.sub x y) × (d.sub x y ≼ x)
  pub sub_nonpos : (x y : F) → num 0 ≼ x → x ≼ y → y ≺ d.inf → d.sub x y ≼ num 0
  pub sub_pos : (x y : F) → num 0 ≼ y → y ≺ x → x ≺ d.inf → num 0 ≺ d.sub x y
  pub zero_div : (y : F) → num 0 ≺ y → d.div (num 0) y ≼ num 0
  pub mul_nonneg : (x y : F) → num 0 ≼ x → x ≺ d.inf → num 0 ≼ y → y ≺ d.inf → num 0 ≼ d.mul x y
  pub div_nonneg : (x y : F) → num 0 ≼ x → num 0 ≺ y → y ≺ d.inf → num 0 ≼ d.div x y
  pub add_grows_right : (x y : F) → num 0 ≼ x → num 0 ≼ y → y ≼ d.add x y
  pub mul_mono :
      (x y z : F) → num 0 ≼ x → x ≼ y → y ≺ d.inf → num 0 ≼ z → z ≺ d.inf → d.mul x z ≼ d.mul y z
  pub div_mono : (x y z : F) → num 0 ≼ x → x ≼ y → num 0 ≺ z → z ≺ d.inf → d.div x z ≼ d.div y z
  -- products and quotients that are whole numbers up to 2^53 are exact
  pub num_mul : (m n : ℕ) → m * n ≤ 2 ^ 53 → d.mul (num m) (num n) ≡ num (m * n)
  pub num_div : (m n : ℕ) → 0 < n → m * n ≤ 2 ^ 53 → d.div (num (m * n)) (num n) ≡ num m
  pub seconds_whole : (s n : ℕ) → s * 1_000_000_000 ≤ n → n < 2 ^ 63 → d.decimal s 0 ≼ d.seconds n
  pub seconds_nonneg : (n : ℕ) → n < 2 ^ 63 → (num 0 ≼ d.seconds n) × (d.seconds n ≺ d.inf)
  pub seconds_zero : d.seconds 0 ≼ num 0

-- The percentages that the code weighs scores with: 100 times their float64 is exact.
pub record IsPercentage {ℓ} (F : Type ℓ) ⦃d : Float F⦄ : Type ℓ where
  pub mul_comm : (x y : F) → d.mul x y ≡ d.mul y x
  -- sums that are whole numbers up to 2^53 are exact
  pub num_add : (m n : ℕ) → m + n ≤ 2 ^ 53 → d.add (num m) (num n) ≡ num (m + n)
  pub ten_percent : d.mul (d.decimal 10 2) (num 100) ≡ num 10
  pub fifteen_percent : d.mul (d.decimal 15 2) (num 100) ≡ num 15
  pub twenty_percent : d.mul (d.decimal 20 2) (num 100) ≡ num 20
  pub quarter : d.mul (d.decimal 25 2) (num 100) ≡ num 25
