-- ===== src/Features/Stats/Sorting.antt =====
-- `minMax` of backend/internal/features/calc.go: its sort, and the values it gives.
use mathlib.Core.Path.{subst}
use maelstromhub.Prelude.{
  ℕ, suc, ◌-◌, ◌≡◌, refl, List, [], ◌∷◌, All, length, arith, Bool-cases, inl, inr, sym, ap, ◌∙◌,
  ◌≢◌,
}
use maelstromhub.Float.{Float, num, ◌≼◌}
use maelstromhub.Float.Laws.{IsOrdered}
use maelstromhub.Float.Order
use maelstromhub.Features.Stats.{at, less, insert_sorted, sort, min_max}

module _ {ℓ κ} {F : Type ℓ} ⦃d : Float F⦄ (P : F → Type κ) where
  All-insert_sorted : (x : F) (ys : List F) → P x → All P ys → All P (insert_sorted x ys)
  unfolding insert_sorted
  All-insert_sorted x [] p ps = (p, tt)
  All-insert_sorted x (y ∷ ys) p ps = elim (Bool-cases (less y x)) [
    | inl before ↦ rw before (ps.0, All-insert_sorted x ys p ps.1)
    | inr after ↦ rw after (p, ps)
  ]

  All-of_insert_sorted : (x : F) (ys : List F) → All P (insert_sorted x ys) → P x × All P ys
  unfolding insert_sorted
  All-of_insert_sorted x [] ps = ps
  All-of_insert_sorted x (y ∷ ys) ps = elim (Bool-cases (less y x)) [
    | inl before ↦
        let qs : P y × All P (insert_sorted x ys) = rw before at ps in
        let (p, rest) = All-of_insert_sorted x ys qs.1 in (p, (qs.0, rest))
    | inr after ↦ rw after at ps
  ]

  pub All-sort : (xs : List F) → All P xs → All P (sort xs)
  unfolding sort
  All-sort [] ps = tt
  All-sort (x ∷ xs) ps = All-insert_sorted x (sort xs) ps.0 (All-sort xs ps.1)

  pub All-of_sort : (xs : List F) → All P (sort xs) → All P xs
  unfolding sort
  All-of_sort [] ps = tt
  All-of_sort (x ∷ xs) ps =
      let (p, rest) = All-of_insert_sorted x (sort xs) ps in (p, All-of_sort xs rest)

module _ {ℓ} {F : Type ℓ} ⦃d : Float F⦄ where
  abbrev IsReal : F → Type 0
  IsReal x = x ≼ x

  abbrev IsSorted : List F → Type 0
  IsSorted [] = Unit {0}
  IsSorted (x ∷ xs) = All (λ y. x ≼ y) xs × IsSorted xs

  greatest : List F → F
  greatest xs = at (num 0) xs (length xs - 1)

module _ {ℓ} {F : Type ℓ} ⦃d : Float F⦄ (laws : IsOrdered F) where
  open laws use {le_trans, eq-eq, lt-eq, le_total}

  less-eq : (x y : F) → IsReal x → IsReal y → less x y ≡ d.lt x y
  less-eq x y hx hy = ground (arith, eq-eq x x)

  All-le_trans : (x y : F) (zs : List F) → x ≼ y → All (λ z. y ≼ z) zs → All (λ z. x ≼ z) zs
  All-le_trans x y [] h hs = tt
  All-le_trans x y (z ∷ zs) h hs = (le_trans x y z h hs.0, All-le_trans x y zs h hs.1)

  insert_sorted-IsSorted :
      (x : F) (ys : List F) → IsReal x → All IsReal ys → IsSorted ys → IsSorted (insert_sorted x ys)
  unfolding insert_sorted
  insert_sorted-IsSorted x [] hx hs s = (tt, tt)
  insert_sorted-IsSorted x (y ∷ ys) hx hs s = elim (Bool-cases (less y x)) [
    | inl before ↦ rw before (
      All-insert_sorted (λ z. y ≼ z) x ys
          (Order.le_of_lt laws y x (sym (less-eq y x hs.0 hx) ∙ before)) s.0,
      insert_sorted-IsSorted x ys hx hs.1 s.1,
    )
    | inr after ↦
        let h = Order.le_of_not_lt laws y x hs.0 hx (sym (less-eq y x hs.0 hx) ∙ after) in
        rw after ((h, All-le_trans x y ys h s.0), s)
  ]

  sort-IsSorted : (xs : List F) → All IsReal xs → IsSorted (sort xs)
  unfolding sort
  sort-IsSorted [] hs = tt
  sort-IsSorted (x ∷ xs) hs =
      insert_sorted-IsSorted x (sort xs) hs.0 (All-sort IsReal xs hs.1) (sort-IsSorted xs hs.1)

  greatest_lem : (x y : F) (xs : List F) → greatest (x ∷ y ∷ xs) ≡ greatest (y ∷ xs)
  unfolding greatest
  greatest_lem x y xs =
      ap (at (num 0) (x ∷ y ∷ xs)) (shift (length xs)) ∙ ap (at (num 0) (y ∷ xs)) (back (length xs))
    where
      shift : (n : ℕ) → suc (suc n) - 1 ≡ suc n
      shift n = omega arith

      back : (n : ℕ) → n ≡ suc n - 1
      back n = omega arith

  All-greatest : (xs : List F) → All IsReal xs → IsSorted xs → All (λ z. z ≼ greatest xs) xs
  All-greatest [] hs s = tt
  All-greatest (x ∷ []) hs s = unfold greatest in (hs.0, tt)
  All-greatest (x ∷ y ∷ xs) hs s =
      let rest = All-greatest (y ∷ xs) hs.1 s.1 in
      subst (λ g. All (λ z. z ≼ g) (x ∷ y ∷ xs)) (sym (greatest_lem x y xs))
        (le_trans x y (greatest (y ∷ xs)) s.0.0 rest.0, rest)

  least : List F → F
  least xs = at (num 0) xs 0

  least-All : (xs : List F) → All IsReal xs → IsSorted xs → All (λ z. least xs ≼ z) xs
  unfolding least
  least-All [] hs s = tt
  least-All (x ∷ xs) hs s = (hs.0, s.0)

  least-among : (P : F → Type 0) (xs : List F) → xs ≢ [] → All P xs → P (least xs)
  unfolding least
  least-among P [] ne hs = absurd (ne refl)
  least-among P (x ∷ xs) ne hs = hs.0

  greatest-among : (P : F → Type 0) (xs : List F) → xs ≢ [] → All P xs → P (greatest xs)
  greatest-among P [] ne hs = absurd (ne refl)
  greatest-among P (x ∷ []) ne hs = unfold greatest in hs.0
  greatest-among P (x ∷ y ∷ xs) ne hs =
      subst P (sym (greatest_lem x y xs)) (greatest-among P (y ∷ xs) (λ e. cc) hs.1)

  insert_sorted-ne-nil : (x : F) (ys : List F) → insert_sorted x ys ≢ []
  unfolding insert_sorted
  insert_sorted-ne-nil x [] = cc
  insert_sorted-ne-nil x (y ∷ ys) = ground arith

  -- Of real values, `minMax` gives a lower and an upper bound that are among them.
  pub min_max_bounds :
      (x : F) (xs : List F)
      → All IsReal (x ∷ xs)
      → let (low, high) = min_max (x ∷ xs) in
        All (λ z. low ≼ z) (x ∷ xs)
        × All (λ z. z ≼ high) (x ∷ xs)
        × ((P : F → Type 0) → All P (x ∷ xs) → P low × P high)
  unfolding min_max greatest least sort
  min_max_bounds x xs hs =
      let values = x ∷ xs in
      let sorted = sort-IsSorted values hs in
      let reals = All-sort IsReal values hs in
      (
        All-of_sort (λ z. least (sort values) ≼ z) values (least-All (sort values) reals sorted),
        All-of_sort (λ z. z ≼ greatest (sort values)) values
            (All-greatest (sort values) reals sorted),
        λ P ps.
            let some = insert_sorted-ne-nil x (sort xs) in
            let ps' = All-sort P values ps in
            (least-among P (sort values) some ps', greatest-among P (sort values) some ps'),
      )
