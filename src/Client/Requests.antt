-- ===== src/Client/Requests.antt =====
-- The requests of backend/internal/hyperliquid/client.go, one for each kind of data, over `info`.
--
-- The body that `json.Marshal` makes of a request is left out: what is sent shows in the answers of the
-- exchange. The decoders of the answers are parameters; `raw` is what `store.Raw` makes of a candle.
use maelstromhub.Prelude.{
  ◌≡◌, ◌⊎◌, inl, inr, refl, ℕ, Bool, true, Option, none, some, List, [], ◌∷◌, String, length,
}
use maelstromhub.Prelude.Int.{ℤ, pos}
use maelstromhub.Prelude.Dict.{Dict}
use maelstromhub.Client.{
  Bytes, CallError, malformed, wrong_length, Outcome, value, error, Attempt, RateLimiter, Ended,
  returned, blocked, info,
}
use maelstromhub.Client.Window.{dynamic_weight_from_window}

-- `type Candle`
pub record Candle {ℓ} (F : Type ℓ) : Type ℓ where
  pub time : ℤ
  pub close_time : ℤ
  pub symbol : String
  pub opening : F
  pub high : F
  pub low : F
  pub close : F
  pub volume : F
  pub raw : List ℕ

pub record FundingRecord {ℓ} (F : Type ℓ) : Type ℓ where
  pub coin : String
  pub funding_rate : F
  pub premium : F
  pub time : ℤ

-- what one call of `info` meets: its attempts, and its `Wait`
pub record Call {ℓ} (E : Type ℓ) : Type ℓ where
  pub attempts : ℕ → Attempt
  pub gap : E

pub Ended-cases {ℓ} :
    {A : Type ℓ} (e : Ended A)
    → (e ≡ blocked)
      ⊎ ((err : CallError) × (e ≡ returned (error err)))
      ⊎ ((a : A) × (e ≡ returned (value a)))
Ended-cases blocked = inl refl
Ended-cases (returned (error err)) = inr (inl (err, refl))
Ended-cases (returned (value a)) = inr (inr (a, refl))

module _ {ℓ} {A : Type ℓ} where
  -- a part of an answer
  abbrev pub part_of : Option A → Outcome A
  part_of none = error malformed
  part_of (some a) = value a

  abbrev pub or_empty : Option (Dict A) → Dict A
  or_empty none = []
  or_empty (some m) = m

  -- `if mids == nil`: the answer `null` is an empty map
  abbrev pub no_nil : Ended (Option (Dict A)) → Ended (Dict A)
  no_nil (returned (value m)) = returned (value (or_empty m))
  no_nil (returned (error e)) = returned (error e)
  no_nil blocked = blocked

module _ {ℓ κ} {U : Type ℓ} {C : Type κ} (decode_meta : Bytes → Option U)
    (decode_contexts : Bytes → Option C) where
  abbrev pub both : Outcome U → Outcome C → Outcome (U × C)
  both (error e) contexts = error e
  both (value universe) (error e) = error e
  both (value universe) (value contexts) = value (universe, contexts)

  -- the two items of the answer
  unfoldable pub two_items : List Bytes → Outcome (U × C)
  two_items (meta ∷ (contexts ∷ [])) =
      both (part_of (decode_meta meta)) (part_of (decode_contexts contexts))
  two_items raw = error (wrong_length (length raw))

  abbrev pub then_items : Ended (List Bytes) → Ended (U × C)
  then_items (returned (value raw)) = returned (two_items raw)
  then_items (returned (error e)) = returned (error e)
  then_items blocked = blocked

-- the error of `Ping`, if it returns one
abbrev pub ended_error {ℓ} : {A : Type ℓ} → Ended A → Ended (Option CallError)
ended_error (returned (value a)) = returned (value none)
ended_error (returned (error e)) = returned (value (some e))
ended_error blocked = blocked

module _ {ℓ κ} {S : Type ℓ} {E : Type κ} (limiter : RateLimiter S E) where
  unfoldable pub meta_and_asset_ctxs {μ ν} :
      {U : Type μ} {C : Type ν}
      → (Bytes → Option (List Bytes))
      → (Bytes → Option U)
      → (Bytes → Option C)
      → Call E
      → S
      → S × Ended (U × C)
  meta_and_asset_ctxs decode decode_meta decode_contexts call s =
      let (s', ended) =
        info limiter decode "metaAndAssetCtxs" call.attempts true (pos 0) call.gap s in
      (s', then_items decode_meta decode_contexts ended)

  unfoldable pub all_mids {μ} :
      {F : Type μ} → (Bytes → Option (Option (Dict F))) → Call E → S → S × Ended (Dict F)
  all_mids decode call s =
      let (s', ended) = info limiter decode "allMids" call.attempts true (pos 0) call.gap s in
      (s', no_nil ended)

  unfoldable pub candle_snapshot {μ} :
      {F : Type μ}
      → (Bytes → Option (List (Candle F)))
      → ℤ
      → ℤ
      → Call E
      → S
      → S × Ended (List (Candle F))
  candle_snapshot decode start end call s =
      info limiter decode "candleSnapshot" call.attempts true
        (pos (dynamic_weight_from_window start end)) call.gap s

  unfoldable pub l2_book {μ} : {B : Type μ} → (Bytes → Option B) → Bool → Call E → S → S × Ended B
  l2_book decode critical call s =
      info limiter decode "l2Book" call.attempts critical (pos 0) call.gap s

  unfoldable pub recent_trades {μ} :
      {T : Type μ} → (Bytes → Option (List T)) → Bool → Call E → S → S × Ended (List T)
  recent_trades decode critical call s =
      info limiter decode "recentTrades" call.attempts critical (pos 1) call.gap s

  unfoldable pub funding_history {μ} :
      {F : Type μ}
      → (Bytes → Option (List (FundingRecord F)))
      → ℤ
      → ℤ
      → Bool
      → Call E
      → S
      → S × Ended (List (FundingRecord F))
  funding_history decode start end critical call s =
      info limiter decode "fundingHistory" call.attempts critical
        (pos (dynamic_weight_from_window start end)) call.gap s

  unfoldable pub ping {μ} :
      {F : Type μ} → (Bytes → Option (Option (Dict F))) → Call E → S → S × Ended (Option CallError)
  ping decode call s = let (s', ended) = all_mids decode call s in (s', ended_error ended)
