-- ===== src/Float/Order.antt =====
-- Consequences of the comparison laws of float64.
use maelstromhub.Prelude.{◌≡◌, false, arith}
use maelstromhub.Float.Defs.{Float, ◌≼◌, ◌≺◌}
use maelstromhub.Float.Laws.{IsOrdered}

module _ {ℓ} {F : Type ℓ} ⦃d : Float F⦄ (laws : IsOrdered F) where
  open laws use {lt-eq, le_trans, le_total, refl_of_le}

  pub le_of_lt : (x y : F) → x ≺ y → x ≼ y
  le_of_lt x y h = ground (arith, lt-eq x y)

  pub not_le_of_lt : (x y : F) → x ≺ y → d.le y x ≡ false
  not_le_of_lt x y h = ground (arith, lt-eq x y)

  pub lt_of_le_lt : (x y z : F) → x ≼ y → y ≺ z → x ≺ z
  lt_of_le_lt x y z h k =
      ground (arith, lt-eq x z, lt-eq y z, le_trans x y z h (le_of_lt y z k), le_trans z x y)

  pub lt_of_lt_le : (x y z : F) → x ≺ y → y ≼ z → x ≺ z
  lt_of_lt_le x y z h k =
      ground (arith, lt-eq x z, lt-eq x y, le_trans x y z (le_of_lt x y h) k, le_trans y z x)

  pub le_of_not_lt : (x y : F) → x ≼ x → y ≼ y → d.lt x y ≡ false → y ≼ x
  le_of_not_lt x y hx hy h = ground (arith, lt-eq x y, le_total x y hx hy)
