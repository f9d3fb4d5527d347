-- ===== src/Config/Examples.antt =====
-- The theorems about backend/internal/config/config.go at concrete settings.
use mathlib.Core.List.{foldl}
use maelstromhub.Prelude.{ℕ, ◌+◌, ◌<◌, ◌≡◌, none, some, List, [], ◌∷◌, String, map, arith, ◌⊎◌}
use maelstromhub.Prelude.Int.{pos, int64}
use maelstromhub.Prelude.Dict.{lookup}
use maelstromhub.Float.Fixed.{Fixed, fixed_float}
use maelstromhub.Limiter.{new, weight}
use maelstromhub.Config.{Environment, load, parse_weights}
use maelstromhub.Config.Weights.{limiter_config, configured_weight}
use maelstromhub.Config.Parts.{join}
use maelstromhub.Config.RoundTrip.{spelled, text_of, set_entry, parse_weights-join}

-- no variable is set
abbrev bare_environment : Environment
bare_environment name = ""

configured_weight_example :
    let cfg = load bare_environment in
    let charged = weight (new {F = Fixed} (limiter_config cfg) 0) "l2Book" (pos 1) in
    let listed = lookup "l2Book" cfg.endpoint_weights in
    ((listed ≡ none) × (charged ≡ pos (20 + 1)))
    ⊎ ((n : ℕ) × (0 < n) × (listed ≡ some (pos n)) × (charged ≡ int64 (pos (n + 1))))
configured_weight_example = configured_weight Fixed bare_environment 0 "l2Book" 1 (omega arith)

abbrev entries : List (String × String)
entries = ("l2Book", "2") ∷ ("allMids", "04") ∷ ("l2Book", "30") ∷ []

parse_weights-join_example : parse_weights (join (map text_of entries)) ≡ foldl set_entry [] entries
unfolding spelled
parse_weights-join_example = parse_weights-join entries (ground arith)
