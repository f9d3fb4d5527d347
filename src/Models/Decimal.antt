-- ===== src/Models/Decimal.antt =====
-- `UnmarshalJSON` of `Decimal`, in backend/internal/models/types.go: a number, or a text that spells one.
--
-- What `json.Unmarshal` makes of the bytes as a text and as a number, and `strconv.ParseFloat`, are parameters,
-- with none for an error.
use text.Mathlib.Text.{◌==◌ as str_eq}
use maelstromhub.Prelude.{ℕ, Option, none, some, List, String, if◌then◌else◌}
use maelstromhub.Float.{Float, num}

module _ {ℓ} {F : Type ℓ} ⦃d : Float F⦄ where
  abbrev pub or_nought : Option F → F
  or_nought none = num 0
  or_nought (some v) = v

  -- It has no error to return: what cannot be read is 0.
  unfoldable pub unmarshal_json :
      (List ℕ → Option String) → (List ℕ → Option F) → (String → Option F) → List ℕ → F
  unmarshal_json text number parse_float bytes = elim (text bytes) [
    | some s ↦ if str_eq s "" then num 0 else or_nought (parse_float s)
    | none ↦ or_nought (number bytes)
  ]
