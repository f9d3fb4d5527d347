-- ===== src/Api/Params.antt =====
-- The parameters of a request, as the handlers of backend/internal/api/router.go read them.
use text.Mathlib.Text.{◌==◌ as str_eq}
use maelstromhub.Prelude.{ℕ, Option, none, some, String, if◌then◌else◌}
use maelstromhub.Prelude.Int.{ℤ, pos}
use maelstromhub.Config.{int_or}
use maelstromhub.Config.Text.{atoi}
use maelstromhub.Query.Listing.{MarketQuery}

-- `q.Get`, which gives an empty text for a parameter that is missing
abbrev pub Query : Type 0
Query = String → String

-- `intParam`
unfoldable pub int_param : String → ℤ → ℤ
int_param raw fallback = int_or fallback (atoi raw)

-- the time of a parameter, where it is one
abbrev pub time_or : ℕ → Option ℕ → ℕ
time_or fallback none = fallback
time_or fallback (some t) = t

unfoldable pub time_param : (String → Option ℕ) → String → ℕ → ℕ
time_param parse_time raw fallback =
    if str_eq raw "" then fallback else time_or fallback (parse_time raw)

unfoldable pub interval_param : String → String
interval_param raw = if str_eq raw "" then "5m" else raw

-- the query of `markets`, with `floatParam` as a parameter
unfoldable pub market_query {ℓ} : {F : Type ℓ} → (String → F) → Query → MarketQuery F
market_query float_param q = record {
  sort = q "sort";
  direction = q "direction";
  min_volume = float_param (q "min_volume");
  min_research_score = float_param (q "min_research_score");
  regime = q "regime";
  limit = int_param (q "limit") (pos 50);
  offset = int_param (q "offset") (pos 0);
}
