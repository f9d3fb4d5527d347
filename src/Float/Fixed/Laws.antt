-- ===== src/Float/Fixed/Laws.antt =====
-- The laws of `Float.Laws` hold of thousandths.
use native.Mathlib.Nat.{
  mul_comm as nat_mul_comm, le-div_iff_mul-le, div-mul-le_self, le_trans, mul-le-mul_right,
  mul-div_left,
}
use maelstromhub.Prelude.{
  ℕ, zero, suc, ◌≤◌, ◌/◌, ◌*◌, ◌+◌, ◌^◌, ◌⊎◌, ◌<◌, ◌≡◌, refl, arith, ap, ◌∙◌,
}
use maelstromhub.Prelude.Int.{ℤ, pos, pos_part, neg_part, ◌+ℤ◌, ◌*ℤ◌, div_ℤ}
use maelstromhub.Float.Defs.{num, ◌≼◌, ◌≺◌}
use maelstromhub.Float.Laws.{IsOrdered, IsArithmetic, IsPercentage}
use maelstromhub.Float.Fixed.{
  Fixed, milli, pos_inf, fixed_float, fixed_le, fixed_neg, fixed_add, fixed_mul, fixed_div,
  fixed_decimal, fixed_seconds,
}

div_mono : (a b k : ℕ) → a ≤ b → a / k ≤ b / k
div_mono a b zero h = omega arith
div_mono a b (suc k) h =
    (le-div_iff_mul-le (omega arith)).1 (le_trans (div-mul-le_self a (suc k)) h)

mul_mono :
    (x y z : Fixed)
    → fixed_decimal 0 0 ≼ x
    → x ≼ y
    → y ≺ pos_inf
    → fixed_decimal 0 0 ≼ z
    → z ≺ pos_inf
    → fixed_mul x z ≼ fixed_mul y z
unfolding fixed_le fixed_mul fixed_decimal
mul_mono (milli (pos a)) (milli (pos b)) (milli (pos c)) h k f g i =
    let le : a ≤ b = ground arith in
    ground (arith, mul-le-mul_right c le, div_mono (a * c) (b * c) 1000)
mul_mono x y z h k f g i = ground arith

quotient_mono :
    (x y z : Fixed)
    → fixed_decimal 0 0 ≼ x
    → x ≼ y
    → fixed_decimal 0 0 ≺ z
    → z ≺ pos_inf
    → fixed_div x z ≼ fixed_div y z
unfolding fixed_le fixed_div fixed_decimal
quotient_mono (milli (pos a)) (milli (pos b)) (milli (pos (suc c))) h k f g =
    ground (arith, div_mono (a * 1000) (b * 1000) (suc c))
quotient_mono x y z h k f g = ground arith

num_lem : (n : ℕ) → fixed_decimal n 0 ≡ milli (pos (n * 1000))
unfolding fixed_decimal
num_lem n = ground arith

pos-*ℤ : (a b : ℕ) → pos a *ℤ pos b ≡ pos (a * b)
unfolding ◌*ℤ◌
pos-*ℤ a b = ground arith

num_mul : (m n : ℕ) → fixed_mul (num m) (num n) ≡ num (m * n)
unfolding fixed_mul div_ℤ
num_mul m n =
    rw (num_lem m, num_lem n, num_lem (m * n), pos-*ℤ) (ap (λ (k : ℕ). milli (pos k)) (omega arith))

quotient_lem :
    (a b : ℕ) → 0 < b → fixed_div (milli (pos a)) (milli (pos b)) ≡ milli (pos (a * 1000 / b))
unfolding fixed_div div_ℤ
quotient_lem a zero h = absurd (omega arith)
quotient_lem a (suc b) h = rw pos-*ℤ

num_div : (m n : ℕ) → 0 < n → fixed_div (num (m * n)) (num n) ≡ num m
num_div m n h =
    rw (num_lem m, num_lem n, num_lem (m * n), quotient_lem (m * n * 1000) (n * 1000) (omega arith))
      (ap (λ (k : ℕ). milli (pos k)) (same ∙ mul-div_left (m * 1000) {n = n * 1000} (omega arith)))
  where
    same : m * n * 1000 * 1000 / (n * 1000) ≡ m * 1000 * (n * 1000) / (n * 1000)
    same = ap (λ (k : ℕ). k / (n * 1000)) (omega arith)

div_self : (x : Fixed) → fixed_decimal 0 0 ≺ x → x ≺ pos_inf → fixed_div x x ≡ num 1
unfolding fixed_le fixed_div fixed_decimal
div_self (milli (pos (suc a))) h f = ground (arith, mul-div_left 1000 {n = suc a} (omega arith))
div_self x h f = ground arith

decimal_pos : (n k : ℕ) → 0 < n → k ≤ 3 → fixed_decimal 0 0 ≺ fixed_decimal n k
unfolding fixed_le fixed_decimal
decimal_pos n zero h j = ground arith
decimal_pos n (suc zero) h j = ground arith
decimal_pos n (suc (suc zero)) h j = ground arith
decimal_pos n (suc (suc (suc zero))) h j = ground arith
decimal_pos n (suc (suc (suc (suc k)))) h j = absurd (omega arith)

zero_div : (y : Fixed) → fixed_decimal 0 0 ≺ y → fixed_div (fixed_decimal 0 0) y ≼ fixed_decimal 0 0
unfolding fixed_le fixed_div fixed_decimal
zero_div (milli (pos (suc c))) h = ground arith
zero_div y h = ground arith

le_total : (x y : Fixed) → x ≼ x → y ≼ y → (x ≼ y) ⊎ (y ≼ x)
unfolding fixed_le
le_total x y h k = ground arith

pub Fixed-IsOrdered : IsOrdered Fixed
unfolding fixed_le fixed_neg fixed_decimal
Fixed-IsOrdered = record {
  refl_of_le = λ x y h. ground arith;
  le_trans = λ x y z h k. ground arith;
  le_total = le_total;
  lt-eq = λ x y. refl;
  eq-eq = λ x y. refl;
  nan_le = λ x. refl;
  inf_top = λ x h. ground arith;
  neg_inf_bottom = λ x h. ground arith;
  decimal_mono = λ m n k h. ground (arith, div_mono (m * 1000) (n * 1000) (10 ^ k));
  decimal_finite = λ n k h. ground arith;
  num_lt = λ m n h k. ground arith;
  neg_inf_lt = refl;
  neg_nonpos = λ x h. ground arith;
  decimal_pos = λ n k h b j. decimal_pos n k h j;
}

pub Fixed-IsArithmetic : IsArithmetic Fixed
unfolding fixed_le fixed_neg fixed_add fixed_mul fixed_div fixed_decimal fixed_seconds
Fixed-IsArithmetic = record {
  add_grows = λ x y h k. ground arith;
  add_mono = λ x y u v h k i j. ground arith;
  div_self = div_self;
  sub_shrinks = λ x y h k f. ground arith;
  sub_nonpos = λ x y h k f. ground arith;
  sub_pos = λ x y h k f. ground arith;
  zero_div = zero_div;
  mul_nonneg = λ x y h k f g. ground arith;
  div_nonneg = λ x y h k f. ground arith;
  add_grows_right = λ x y h k. ground arith;
  mul_mono = mul_mono;
  div_mono = quotient_mono;
  num_mul = λ m n h. num_mul m n;
  num_div = λ m n h k. num_div m n h;
  seconds_whole = λ s n h k. ground arith;
  seconds_nonneg = λ n h. ground arith;
  seconds_zero = refl;
}

times_comm : (a b : ℤ) → a *ℤ b ≡ b *ℤ a
unfolding ◌*ℤ◌
times_comm a b = ground (
  arith,
  nat_mul_comm (pos_part a) (pos_part b),
  nat_mul_comm (neg_part a) (neg_part b),
  nat_mul_comm (pos_part a) (neg_part b),
  nat_mul_comm (neg_part a) (pos_part b),
)

mul_comm : (x y : Fixed) → fixed_mul x y ≡ fixed_mul y x
unfolding fixed_mul
mul_comm (milli a) (milli b) = ap (λ z. milli (div_ℤ z 1000)) (times_comm a b)
mul_comm x y = ground arith

pos-+ℤ : (a b : ℕ) → pos a +ℤ pos b ≡ pos (a + b)
unfolding ◌+ℤ◌
pos-+ℤ a b = ground arith

num_add : (m n : ℕ) → fixed_add (num m) (num n) ≡ num (m + n)
unfolding fixed_add
num_add m n =
    rw (num_lem m, num_lem n, num_lem (m + n), pos-+ℤ) (ap (λ (k : ℕ). milli (pos k)) (omega arith))

pub Fixed-IsPercentage : IsPercentage Fixed
unfolding fixed_mul fixed_decimal
Fixed-IsPercentage = record {
  mul_comm = mul_comm;
  num_add = λ m n h. num_add m n;
  ten_percent = refl;
  fifteen_percent = refl;
  twenty_percent = refl;
  quarter = refl;
}
