-- ===== src/Features/Flags.antt =====
-- `GenerateFlags` of backend/internal/features/calc.go.
use maelstromhub.Prelude.{Bool, true, false, ◌&&◌, List, [], ◌∷◌, ◌++◌, String}
use maelstromhub.Float
use maelstromhub.Float.{Float, num}
use maelstromhub.Models.{Feature, Flag}

abbrev pub flag_when : Bool → Flag → List Flag
flag_when true flag = flag ∷ []
flag_when false flag = []

module _ {ℓ} {F : Type ℓ} ⦃d : Float F⦄ where
  open d use {decimal, lt, le, neg}

  -- the closure `add`
  abbrev pub flag_of : Feature F → String → String → String → Flag
  flag_of f kind severity message = record {
    time = f.time;
    coin = f.coin;
    flag_type = kind;
    severity = severity;
    message = message;
  }

  unfoldable pub generate_flags : Feature F → List Flag
  generate_flags f =
      flag_when (le (num 2) f.volume_vs_7d_avg)
        (flag_of f "volume_anomaly" "high" "Volume is more than 2x above 7d average")
      ++ (flag_when (le (decimal 18 2) f.oi_change_24h)
            (flag_of f "oi_anomaly" "high" "OI up more than 18% in 24h")
          ++ (flag_when (le (num 2) f.funding_z_score)
                (flag_of f "funding" "medium" "Funding extremely positive")
              ++ (flag_when (lt f.funding_z_score (neg (num 1)) && lt (decimal 5 2) f.oi_change_24h)
                    (flag_of f "squeeze" "medium" "Funding negative while OI rising")
                  ++ (flag_when (lt (num 12) f.spread_bps)
                        (flag_of f "execution" "high" "Spread too wide")
                      ++ (flag_when
                            (lt (decimal 5 2) f.return_24h
                              && lt (Float.abs f.funding_z_score) (num 1))
                            (flag_of f "relative_strength" "medium"
                              "Strong relative strength with neutral funding")
                          ++ flag_when
                              (lt f.realized_vol (decimal 2 2) && lt (num 1) f.volume_z_score)
                              (flag_of f "volatility" "medium"
                                "Volatility compression with volume rising"))))))
