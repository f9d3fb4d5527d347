-- ===== src/Query/Latest.antt =====
-- What the queries of backend/internal/store/query.go take for the latest snapshot of a coin.
use text.Mathlib.Text.{◌==◌ as str_eq}
use maelstromhub.Prelude.{
  ℕ, ◌≤◌, ◌≡◌, Bool, Option, none, some, List, [], ◌∷◌, String, arith, ltb, ◌==◌, All, inl, inr,
  Bool-cases,
}
use maelstromhub.Models.{MarketSnapshot}
use maelstromhub.Store.{same_moment, snapshot_key}
use maelstromhub.Store.Rows.{select}
use maelstromhub.Query.Rows.{rows_where, later, newest}

module _ {ℓ} {R : Type ℓ} (time : R → ℕ) where
  abbrev pub Holds {κ} : (R → Type κ) → Option R → Type κ
  Holds P none = Unit
  Holds P (some row) = P row

  -- There is a row, which is no earlier than this.
  abbrev pub IsSince : ℕ → Option R → Type 0
  IsSince t none = ⊥
  IsSince t (some row) = t ≤ time row

  later-Holds {κ} :
      (P : R → Type κ) (row : R) (other : Option R)
      → P row
      → Holds P other
      → Holds P (later time row other)
  later-Holds P row none h k = h
  later-Holds P row (some other) h k = elim (Bool-cases (ltb (time row) (time other))) [
    | inl less ↦ rw less k
    | inr more ↦ rw more h
  ]

  pub newest-Holds {κ} : (P : R → Type κ) (rows : List R) → All P rows → Holds P (newest time rows)
  unfolding newest
  newest-Holds P [] h = tt
  newest-Holds P (row ∷ rows) (h, hs) =
      later-Holds P row (newest time rows) h (newest-Holds P rows hs)

  pub rows_where-All {κ} :
      (P : R → Type κ) (p : R → Bool) (rows : List R) → All P rows → All P (rows_where p rows)
  unfolding rows_where
  rows_where-All P p [] h = tt
  rows_where-All P p (row ∷ rows) (h, hs) = elim (Bool-cases (p row)) [
    | inl hit ↦ rw hit (h, rows_where-All P p rows hs)
    | inr miss ↦ rw miss (rows_where-All P p rows hs)
  ]

  later-IsSince :
      (t : ℕ) (row : R) (other : Option R) → t ≤ time row → IsSince t (later time row other)
  later-IsSince t row none h = h
  later-IsSince t row (some other) h = elim (Bool-cases (ltb (time row) (time other))) [
    | inl less ↦ rw less (ground arith)
    | inr more ↦ rw more h
  ]

  later-IsSince_of_other :
      (t : ℕ) (row : R) (other : Option R) → IsSince t other → IsSince t (later time row other)
  later-IsSince_of_other t row none h = absurd h
  later-IsSince_of_other t row (some other) h = elim (Bool-cases (ltb (time row) (time other))) [
    | inl less ↦ rw less h
    | inr more ↦ rw more (ground arith)
  ]

module _ {ℓ} {F : Type ℓ} where
  abbrev pub time_of : MarketSnapshot F → ℕ
  time_of s = s.time

  -- The latest snapshot of a coin is at least as late as any row of it.
  pub select-IsSince :
      (coin : String) (t : ℕ) (rows : List (MarketSnapshot F)) {row : MarketSnapshot F}
      → select snapshot_key same_moment (coin, t) rows ≡ some row
      → IsSince time_of t (newest time_of (rows_where (λ s. str_eq s.coin coin) rows))
  unfolding select newest rows_where
  select-IsSince coin t [] e = cc
  select-IsSince coin t (s ∷ rows) e = elim (Bool-cases (str_eq s.coin coin)) [
    | inl hit ↦ elim (Bool-cases (s.time == t)) [
      | inl now ↦ rw hit (later-IsSince time_of t s _ (ground arith))
      | inr past ↦
          rw hit (
            later-IsSince_of_other time_of t s _ (select-IsSince coin t rows (rw (hit, past) at e)))
    ]
    | inr miss ↦ rw miss (select-IsSince coin t rows (rw miss at e))
  ]
