-- ===== src/Query/Range.antt =====
-- What `Candles` (backend/internal/store/query.go) gives for a range of times.
use mathlib.Core.Logic.Or
use mathlib.Core.List.{Perm, Mem, mem-cons, mem-cons_self, not-mem-nil}
use mathlib.Core.List.Perm
use native.Mathlib.Bridge.{le_prop}
use native.Mathlib.Numerals.{unary_clauses}
use mathlib.Core.Path.{subst}
use maelstromhub.Prelude.{
  ℕ, ◌≤◌, ◌≡◌, refl, Bool, true, Option, none, some, List, [], ◌∷◌, String, All, leb, length, arith,
  inr,
}
use maelstromhub.Prelude.Sort.{
  sort_by-perm, sort_by-IsSortedBy, All-sort_by, IsSortedBy, sort_by, length-sort_by,
}
use maelstromhub.Float.{Float}
use maelstromhub.Models.{Candle}
use maelstromhub.Store.{Database}
use maelstromhub.Features.{feature_time}
use maelstromhub.Query.Rows.{rows_where, rows_where-passes, in_range, candles}

module _ {ℓ} {F : Type ℓ} where
  -- not later than
  abbrev pub no_later : Candle F → Candle F → Bool
  no_later a b = leb a.time b.time

  -- Where its query succeeds, `Candles` gives the candles of the coin and the interval with times in the range,
  -- both ends included, each as often as the table has it, from the earliest to the latest.
  pub candles-IsSortedBy :
      (coin interval : String) (start end : ℕ) (db : Database F)
      → let rows = (candles none coin interval start end db).0 in
        Perm rows (rows_where (in_range coin interval start end) db.candles)
        × All (λ c. in_range coin interval start end c ≡ true) rows
        × IsSortedBy no_later rows
  unfolding candles
  candles-IsSortedBy coin interval start end db = (
    sort_by-perm no_later _,
    All-sort_by no_later (λ c. in_range coin interval start end c ≡ true) _
        (rows_where-passes (in_range coin interval start end) db.candles),
    sort_by-IsSortedBy no_later (λ a b. ground arith) (λ a b c h k. ground arith) _,
  )

  -- The time is that of the latest of some candles.
  abbrev pub IsLatest : ℕ → List (Candle F) → Type ℓ
  IsLatest time rows =
      (latest : Candle F) × Mem latest rows
      × (latest.time ≡ time)
      × ((c : Candle F) → Mem c rows → c.time ≤ time)

  perm-IsLatest :
      (time : ℕ) (rows others : List (Candle F))
      → Perm rows others
      → IsLatest time rows
      → IsLatest time others
  perm-IsLatest time rows others p (latest, there, same, bound) =
      let both = λ (c : Candle F). Perm.mem_iff {a = c} p in
      (latest, (both latest).0 there, same, λ c m. bound c ((both c).1 m))

  -- a candle in front of later ones
  cons-IsLatest :
      (time : ℕ) (c : Candle F) (rows : List (Candle F))
      → c.time ≤ time
      → IsLatest time rows
      → IsLatest time (c ∷ rows)
  cons-IsLatest time c rows first (latest, there, same, bound) = (
    latest,
    mem-cons.1 ∣ inr there ∣₁,
    same,
    λ x m. Or.elim le_prop (mem-cons.0 m) (λ e. rw e first) (bound x),
  )

module _ {ℓ} {F : Type ℓ} ⦃d : Float F⦄ where
  -- Of candles in the order of their times the last is the latest.
  feature_time-IsLatest :
      (now : ℕ) (c : Candle F) (rows : List (Candle F))
      → IsSortedBy no_later (c ∷ rows)
      → IsLatest (feature_time now (c ∷ rows)) (c ∷ rows)
  unfolding feature_time
  feature_time-IsLatest now c [] s = (
    c,
    mem-cons_self,
    refl,
    λ x m. Or.elim le_prop (mem-cons.0 m) (λ e. rw e (omega arith)) (λ m'. absurd (not-mem-nil m')),
  )
  feature_time-IsLatest now c (c' ∷ rows) (first, s) =
      let latest = feature_time-IsLatest now c' rows s in
      let next : c'.time ≤ feature_time now (c' ∷ rows) = latest.3 c' mem-cons_self in
      let again : feature_time now (c' ∷ rows) ≡ feature_time now (c ∷ c' ∷ rows) =
        simp unary_clauses refl in
      subst (λ time. IsLatest time (c ∷ c' ∷ rows)) again
        (cons-IsLatest _ c (c' ∷ rows) (ground (arith, first.0, next)) latest)

  -- The time of the features from candles that are read is that of the latest of them, if there are any.
  candles-IsLatest :
      (now : ℕ) (rows : List (Candle F))
      → 1 ≤ length rows
      → IsSortedBy no_later rows
      → IsLatest (feature_time now rows) rows
  candles-IsLatest now [] enough s = absurd (omega (arith, enough))
  candles-IsLatest now (c ∷ rows) enough s = feature_time-IsLatest now c rows s

  pub feature_time-candles :
      (now : ℕ) (err : Option String) (coin interval : String) (start end : ℕ) (db : Database F)
      → let wanted = rows_where (in_range coin interval start end) db.candles in
        let rows = (candles err coin interval start end db).0 in
        err ≡ none
        → 1 ≤ length wanted
        → (length rows ≡ length wanted) × IsLatest (feature_time now rows) wanted
  unfolding candles
  feature_time-candles now none coin interval start end db read enough =
      let wanted = rows_where (in_range coin interval start end) db.candles in
      let rows = sort_by no_later wanted in
      let (arranged, passes, sorted) = candles-IsSortedBy coin interval start end db in
      let same : length rows ≡ length wanted = length-sort_by no_later wanted in
      (
        same,
        perm-IsLatest _ rows wanted arranged
            (candles-IsLatest now rows (omega (arith, same, enough)) sorted),
      )
  feature_time-candles now (some e) coin interval start end db read enough = cc
