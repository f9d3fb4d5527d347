-- ===== src/Config/Weights.antt =====
-- The weights that `parseWeights` (backend/internal/config/config.go) gives the rate limiter.
use text.Mathlib.Text.{◌==◌ as str_eq}
use maelstromhub.Prelude.{
  Bool-cases, ℕ, ◌+◌, ◌<◌, ◌≤◌, ◌≡◌, refl, Option, none, some, List, [], ◌∷◌, String, arith, ◌⊎◌,
  inl, inr,
}
use maelstromhub.Prelude.Int.{ℤ, pos, negsuc, int64-pos, int64, ltb_ℤ, ◌<ℤ◌, ◌+ℤ◌}
use maelstromhub.Prelude.Dict.{Dict, lookup, read, insert, lookup-insert}
use maelstromhub.Float.{Float}
use maelstromhub.Limiter
use maelstromhub.Limiter.{Weighted, new, weight}
use maelstromhub.Config.{
  Environment, Config, load, put_weight, put_pair, weights_loop, parse_weights, split,
}
use maelstromhub.Config.Text.{cut, atoi, trim_space}

-- Each key has a positive value.
abbrev pub IsPositive : Option ℤ → Type 0
IsPositive none = Unit
IsPositive (some w) = pos 0 <ℤ w

insert-IsPositive :
    (key endpoint : String) (w : ℤ) (weights : Dict ℤ)
    → pos 0 <ℤ w
    → IsPositive (lookup endpoint weights)
    → IsPositive (lookup endpoint (insert key w weights))
insert-IsPositive key endpoint w weights h k = elim (Bool-cases (str_eq key endpoint)) [
  | inl same ↦ rw (lookup-insert key endpoint w weights, same) h
  | inr other ↦ rw (lookup-insert key endpoint w weights, other) k
]

put_weight-IsPositive :
    (key endpoint : String) (parsed : Option ℤ) (weights : Dict ℤ)
    → IsPositive (lookup endpoint weights)
    → IsPositive (lookup endpoint (put_weight key parsed weights))
put_weight-IsPositive key endpoint none weights h = h
put_weight-IsPositive key endpoint (some w) weights h = elim (Bool-cases (ltb_ℤ (pos 0) w)) [
  | inl more ↦
      rw more (insert-IsPositive (trim_space key) endpoint w weights (ground (arith, more)) h)
  | inr less ↦ rw less h
]

put_pair-IsPositive :
    (endpoint : String) (pair : Option (String × String)) (weights : Dict ℤ)
    → IsPositive (lookup endpoint weights)
    → IsPositive (lookup endpoint (put_pair pair weights))
put_pair-IsPositive endpoint none weights h = h
put_pair-IsPositive endpoint (some (key, raw)) weights h =
    put_weight-IsPositive key endpoint (atoi (trim_space raw)) weights h

weights_loop-IsPositive :
    (endpoint : String) (pairs : List String) (weights : Dict ℤ)
    → IsPositive (lookup endpoint weights)
    → IsPositive (lookup endpoint (weights_loop pairs weights))
unfolding weights_loop
weights_loop-IsPositive endpoint [] weights h = h
weights_loop-IsPositive endpoint (pair ∷ pairs) weights h =
    weights_loop-IsPositive endpoint pairs (put_pair (cut "=" pair) weights)
      (put_pair-IsPositive endpoint (cut "=" pair) weights h)

parse_weights-IsPositive :
    (endpoint value : String) → IsPositive (lookup endpoint (parse_weights value))
unfolding parse_weights lookup
parse_weights-IsPositive endpoint value = weights_loop-IsPositive endpoint (split value) [] tt

-- what `main` gives the limiter of the configuration
unfoldable pub limiter_config : Config → Limiter.Config
limiter_config cfg = record {
  capacity_per_minute = cfg.rate_limit_weight_per_minute;
  endpoint_weights = cfg.endpoint_weights;
}

module _ {ℓ} {F : Type ℓ} ⦃d : Float F⦄ where
  weight_of_listed :
      (l : Weighted F) (endpoint : String) (extra : ℕ) (listed : Option ℤ)
      → lookup endpoint l.weights ≡ listed
      → IsPositive listed
      → extra ≤ 10
      → ((listed ≡ none) × (weight l endpoint (pos extra) ≡ pos (20 + extra)))
        ⊎ ((n : ℕ) × (0 < n)
            × (listed ≡ some (pos n))
            × (weight l endpoint (pos extra) ≡ int64 (pos (n + extra))))
  unfolding weight read ◌+ℤ◌
  weight_of_listed l endpoint extra none e h small =
      inl
        (refl, rw (weight, read, e) (ground (arith, int64-pos (20 + extra) (omega (arith, small)))))
  weight_of_listed l endpoint extra (some (pos n)) e h small =
      inr (n, omega arith, refl, rw (weight, read, e) (ground arith))
  weight_of_listed l endpoint extra (some (negsuc n)) e h small = absurd (omega arith)

module _ {ℓ} (F : Type ℓ) ⦃d : Float F⦄ where
  -- Whatever `ENDPOINT_WEIGHTS` says, the server's limiter gives a request of an endpoint, with an extra weight
  -- of at most 10, one of two weights. An endpoint without a weight in the setting has 20 and the extra
  -- weight. An endpoint with one has that weight and the extra weight, to 64 bits; it is then a positive number,
  -- since entries that are not are dropped.
  pub configured_weight :
      (getenv : Environment) (now : ℕ) (endpoint : String) (extra : ℕ)
      → extra ≤ 10
      → let cfg = load getenv in
        let charged = weight (new {F = F} (limiter_config cfg) now) endpoint (pos extra) in
        let listed = lookup endpoint cfg.endpoint_weights in
        ((listed ≡ none) × (charged ≡ pos (20 + extra)))
        ⊎ ((n : ℕ) × (0 < n) × (listed ≡ some (pos n)) × (charged ≡ int64 (pos (n + extra))))
  unfolding limiter_config new load
  configured_weight getenv now endpoint extra small =
      weight_of_listed (new (limiter_config (load getenv)) now) endpoint extra _ refl
        (parse_weights-IsPositive endpoint _) small
