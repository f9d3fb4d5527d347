-- ===== src/Api/Errors.antt =====
-- What `health` of backend/internal/api/router.go makes of the errors of the two databases.
use text.Mathlib.TextEquality.{eq_iff}
use maelstromhub.Prelude.{◌≡◌, ◌≢◌, ◌↔◌, refl, Option, none, some, [], ◌∷◌, String, arith}
use maelstromhub.Api.{overall, status_unless}

status_unless_iff : (err : Option String) → (status_unless "error" err ≡ "ok") ↔ (err ≡ none)
status_unless_iff none = (λ e. refl, λ e. refl)
status_unless_iff (some e) =
    let differs : "error" ≢ "ok" = ground (arith, eq_iff "error" "ok") in
    (λ (same : "error" ≡ "ok"). absurd (differs same), λ (same : some e ≡ none). cc)

both_ok_iff : (a b : String) → (overall (a ∷ b ∷ []) ≡ "ok") ↔ ((a ≡ "ok") × (b ≡ "ok"))
unfolding overall
both_ok_iff a b = ground (arith, eq_iff a "ok", eq_iff b "ok", eq_iff "degraded" "ok")

-- `overall` over the two databases says "ok" exactly if both answer.
pub overall_iff :
    (db_error redis_error : Option String)
    → (overall (status_unless "error" db_error ∷ status_unless "error" redis_error ∷ []) ≡ "ok")
      ↔ ((db_error ≡ none) × (redis_error ≡ none))
overall_iff db_error redis_error =
    let (to, of) =
      both_ok_iff (status_unless "error" db_error) (status_unless "error" redis_error) in
    let db = status_unless_iff db_error in
    let redis = status_unless_iff redis_error in
    (λ e. (db.0 (to e).0, redis.0 (to e).1), λ e. of (db.1 e.0, redis.1 e.1))
