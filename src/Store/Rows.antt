-- ===== src/Store/Rows.antt =====
-- A table with a primary key, as the statements `INSERT ... ON CONFLICT (key) DO UPDATE` of
-- backend/internal/store/store.go change it. Rows that are already there keep their place.
use mathlib.Core.List.{foldl}
use maelstromhub.Prelude.{
  ℕ, zero, suc, get_elem?, ◌≡◌, ◌↔◌, refl, Bool, true, Option, none, some, List, [], ◌∷◌, map, All,
  arith, if◌then◌else◌, ◌∙◌, ap, sym, ◌⊎◌, inl, inr, Bool-cases,
}

module _ {ℓ κ} {R : Type ℓ} {K : Type κ} (key : R → K) (same : K → K → Bool) where
  unfoldable pub upsert : List R → R → List R
  upsert [] row = row ∷ []
  upsert (old ∷ rows) row =
      let rest = upsert rows row in if same (key old) (key row) then row ∷ rows else old ∷ rest

  -- `SELECT * ... WHERE key = k`
  unfoldable pub select : K → List R → Option R
  select k [] = none
  select k (row ∷ rows) = if same (key row) k then some row else select k rows

  -- the last row with a key, or else another
  abbrev pub last_or : K → Option R → List R → Option R
  last_or k other [] = other
  last_or k other (row ∷ rows) = last_or k (if same (key row) k then some row else other) rows

  pub upsert-All {μ} :
      (P : R → Type μ) (rows : List R) (row : R) → All P rows → P row → All P (upsert rows row)
  unfolding upsert
  upsert-All P [] row h k = (k, tt)
  upsert-All P (old ∷ rows) row (h, hs) k = elim (Bool-cases (same (key old) (key row))) [
    | inl hit ↦ rw hit (k, hs)
    | inr miss ↦ rw miss (h, upsert-All P rows row hs k)
  ]

  pub last_or-some :
      (k : K) (found : R) (new : List R) → (row : R) × (last_or k (some found) new ≡ some row)
  last_or-some k found [] = (found, refl)
  last_or-some k found (row ∷ new) = elim (Bool-cases (same (key row) k)) [
    | inl hit ↦ rw hit (last_or-some k row new)
    | inr miss ↦ rw miss (last_or-some k found new)
  ]

  pub last_or_of_same :
      (k : K) (row : R) (other : Option R) (new : List R)
      → same (key row) k ≡ true
      → (found : R) × (last_or k other (row ∷ new) ≡ some found)
  last_or_of_same k row other new hit = rw hit (last_or-some k row new)

  -- A batch that has a row for a key leaves one.
  pub last_or-get_elem? :
      (k : K) (new : List R) (other : Option R) (i : ℕ) {row : R}
      → get_elem? new i ≡ some row
      → same (key row) k ≡ true
      → (found : R) × (last_or k other new ≡ some found)
  last_or-get_elem? k [] other i e hit = cc
  last_or-get_elem? k (first ∷ new) other zero e hit =
      let here : same (key first) k ≡ true = cc in last_or_of_same k first other new here
  last_or-get_elem? k (first ∷ new) other (suc i) e hit = last_or-get_elem? k new _ i e hit

  module _ (same_iff : (j k : K) → (same j k ≡ true) ↔ (j ≡ k)) where
    select-upsert :
        (k : K) (rows : List R) (row : R)
        → select k (upsert rows row) ≡ (if same (key row) k then some row else select k rows)
    unfolding upsert select
    select-upsert k [] row = refl
    select-upsert k (old ∷ rows) row = ground (
      arith,
      select-upsert k rows row,
      same_iff (key old) (key row),
      same_iff (key row) k,
      same_iff (key old) k,
    )

    module _ {μ} {A : Type μ} (stored : A → R) where
      -- After a batch, a key has the last row that the batch has for it, or else its old row.
      pub select-all :
          (k : K) (new : List A) (rows : List R)
          → select k (foldl (λ table a. upsert table (stored a)) rows new)
            ≡ last_or k (select k rows) (map stored new)
      select-all k [] rows = refl
      select-all k (a ∷ new) rows =
          select-all k new (upsert rows (stored a))
          ∙ ap (λ o. last_or k o (map stored new)) (select-upsert k rows (stored a))

  -- Either a batch has a last row for a key, or it does not touch the key.
  last_or_cases :
      (k : K) (new : List R)
      → ((row : R) × ((other : Option R) → last_or k other new ≡ some row))
        ⊎ ((other : Option R) → last_or k other new ≡ other)
  last_or_cases k [] = inr (λ other. refl)
  last_or_cases k (row ∷ new) = elim (last_or_cases k new) [
    | inl (last, found) ↦ inl (last, λ other. found _)
    | inr kept ↦ elim (Bool-cases (same (key row) k)) [
      | inl hit ↦ inl (row, λ other. kept _ ∙ rw hit)
      | inr miss ↦ inr (λ other. kept _ ∙ rw miss)
    ]
  ]

  pub last_or_twice :
      (k : K) (other : Option R) (new : List R)
      → last_or k (last_or k other new) new ≡ last_or k other new
  last_or_twice k other new = elim (last_or_cases k new) [
    | inl (last, found) ↦ found _ ∙ sym (found other)
    | inr kept ↦ kept _
  ]
