-- ===== src/Float/Fixed.antt =====
-- A concrete `Float`: thousandths, with the infinities and NaN. It shows that the laws can be met, and
-- runs the tests. It keeps three decimals, and of a logarithm the whole part.
use maelstromhub.Prelude.{
  ℕ, zero, suc, ◌+◌, ◌-◌, ◌*◌, ◌/◌, ◌^◌, Bool, true, false, not, ◌&&◌, leb, ltb, ◌==◌,
  if◌then◌else◌,
}
use maelstromhub.Prelude.Int.{ℤ, pos, negsuc, ◌+ℤ◌, ◌-ℤ◌, ◌*ℤ◌, leb_ℤ, div_ℤ, pos_part, sub_ℕ}
use maelstromhub.Float.Defs.{Float}
pub mod Laws

pub data Fixed : Type 0 where
  undefined : Fixed
  pos_inf : Fixed
  neg_inf : Fixed
  milli : ℤ → Fixed

unfoldable pub fixed_le : Fixed → Fixed → Bool
fixed_le undefined y = false
fixed_le x undefined = false
fixed_le neg_inf y = true
fixed_le pos_inf pos_inf = true
fixed_le pos_inf y = false
fixed_le (milli a) pos_inf = true
fixed_le (milli a) neg_inf = false
fixed_le (milli a) (milli b) = leb_ℤ a b

unfoldable pub fixed_neg : Fixed → Fixed
unfolding ◌-ℤ◌
fixed_neg undefined = undefined
fixed_neg pos_inf = neg_inf
fixed_neg neg_inf = pos_inf
fixed_neg (milli a) = milli (pos 0 -ℤ a)

unfoldable pub fixed_add : Fixed → Fixed → Fixed
unfolding ◌+ℤ◌
fixed_add undefined y = undefined
fixed_add x undefined = undefined
fixed_add pos_inf neg_inf = undefined
fixed_add neg_inf pos_inf = undefined
fixed_add pos_inf y = pos_inf
fixed_add neg_inf y = neg_inf
fixed_add (milli a) pos_inf = pos_inf
fixed_add (milli a) neg_inf = neg_inf
fixed_add (milli a) (milli b) = milli (a +ℤ b)

-- an infinity times a number, by the number's sign
abbrev scaled : Fixed → Fixed → ℤ → Fixed
scaled up down (pos zero) = undefined
scaled up down (pos (suc n)) = up
scaled up down (negsuc n) = down

unfoldable pub fixed_mul : Fixed → Fixed → Fixed
unfolding ◌*ℤ◌ div_ℤ
fixed_mul undefined y = undefined
fixed_mul x undefined = undefined
fixed_mul pos_inf pos_inf = pos_inf
fixed_mul pos_inf neg_inf = neg_inf
fixed_mul neg_inf pos_inf = neg_inf
fixed_mul neg_inf neg_inf = pos_inf
fixed_mul pos_inf (milli b) = scaled pos_inf neg_inf b
fixed_mul neg_inf (milli b) = scaled neg_inf pos_inf b
fixed_mul (milli a) pos_inf = scaled pos_inf neg_inf a
fixed_mul (milli a) neg_inf = scaled neg_inf pos_inf a
fixed_mul (milli a) (milli b) = milli (div_ℤ (a *ℤ b) 1000)

abbrev over : ℤ → ℤ → Fixed
over a (pos zero) = scaled pos_inf neg_inf a
over a (pos (suc n)) = milli (div_ℤ (a *ℤ pos 1000) (suc n))
over a (negsuc n) = milli (pos 0 -ℤ div_ℤ (a *ℤ pos 1000) (suc n))

unfoldable pub fixed_div : Fixed → Fixed → Fixed
unfolding ◌*ℤ◌ ◌-ℤ◌ div_ℤ
fixed_div undefined y = undefined
fixed_div x undefined = undefined
fixed_div (milli a) (milli b) = over a b
fixed_div (milli a) y = milli (pos 0)
fixed_div pos_inf (milli (pos n)) = pos_inf
fixed_div pos_inf (milli (negsuc n)) = neg_inf
fixed_div neg_inf (milli (pos n)) = neg_inf
fixed_div neg_inf (milli (negsuc n)) = pos_inf
fixed_div x y = undefined

unfoldable pub fixed_signbit : Fixed → Bool
fixed_signbit neg_inf = true
fixed_signbit (milli (negsuc n)) = true
fixed_signbit x = false

-- the greatest r below 2^k above `r` with r * r ≤ n
root_from : ℕ → ℕ → ℕ → ℕ
root_from zero n r = r
root_from (suc k) n r = root_from k n (if leb ((r + 2 ^ k) * (r + 2 ^ k)) n then r + 2 ^ k else r)

unfoldable pub fixed_sqrt : Fixed → Fixed
unfolding root_from
fixed_sqrt pos_inf = pos_inf
fixed_sqrt (milli (pos n)) = milli (pos (root_from 40 (n * 1000) 0))
fixed_sqrt x = undefined

log10_from : ℕ → ℕ → ℕ
log10_from zero n = 0
log10_from (suc k) n = let rest = suc (log10_from k (n / 10)) in if ltb n 10 then 0 else rest

unfoldable pub fixed_log10 : Fixed → Fixed
unfolding log10_from
fixed_log10 pos_inf = pos_inf
fixed_log10 (milli (pos zero)) = neg_inf
fixed_log10 (milli (pos (suc n))) = milli (sub_ℕ (log10_from 40 (suc n) * 1000) 3000)
fixed_log10 x = undefined

unfoldable pub fixed_ceil : Fixed → Fixed
fixed_ceil (milli (pos n)) = milli (pos ((n + 999) / 1000 * 1000))
fixed_ceil (milli (negsuc n)) = milli (sub_ℕ 0 (suc n / 1000 * 1000))
fixed_ceil x = x

unfoldable pub fixed_trunc : Fixed → ℤ
unfolding div_ℤ
fixed_trunc (milli a) = div_ℤ a 1000
fixed_trunc x = negsuc (2 ^ 63 - 1)

unfoldable pub fixed_decimal : ℕ → ℕ → Fixed
fixed_decimal m k = milli (pos (m * 1000 / 10 ^ k))

unfoldable pub fixed_seconds : ℕ → Fixed
fixed_seconds n = milli (pos (n / 1_000_000))

instance abbrev pub fixed_float : Float Fixed
fixed_float = record {
  decimal = fixed_decimal;
  inf = pos_inf;
  nan = undefined;
  neg = fixed_neg;
  add = fixed_add;
  sub = λ x y. fixed_add x (fixed_neg y);
  mul = fixed_mul;
  div = fixed_div;
  lt = λ x y. fixed_le x y && not (fixed_le y x);
  le = fixed_le;
  eq = λ x y. fixed_le x y && fixed_le y x;
  signbit = fixed_signbit;
  sqrt = fixed_sqrt;
  log = λ x. fixed_mul (fixed_log10 x) (fixed_decimal 2303 3);
  log10 = fixed_log10;
  ceil = fixed_ceil;
  trunc = fixed_trunc;
  seconds = fixed_seconds;
}
