-- ===== src/Client/Retry.antt =====
-- The retries of `info` (backend/internal/hyperliquid/client.go): which attempt decides, and how many
-- requests are made.
use maelstromhub.Prelude.{
  ℕ, zero, suc, ◌+◌, ◌≤◌, ◌<◌, ◌≡◌, refl, Bool, true, false, ◌&&◌, not, Option, String, arith, ◌⊎◌,
  inl, inr, ◌∙◌, ap, Bool-cases, if◌then◌else◌,
}
use mathlib.Core.Path.{subst}
use native.Mathlib.Nat.{add-zero, zero-add}
use native.Mathlib.Decide.{ℕ_discrete}
use maelstromhub.Prelude.Int.{ℤ}
use maelstromhub.Client.{
  Bytes, Outcome, value, error, do_info, is_transient, cancelled, Attempt, RateLimiter, settle,
  error_of, noted, retry, admitted, returned, info,
}

-- whether the attempt fails in a way that `info` tries again, and the sleep after it is not cut short
abbrev pub goes_on {ℓ} : {A : Type ℓ} → ℕ → Outcome A → Bool → Bool
goes_on status (value v) interrupted = false
goes_on status (error e) interrupted = is_transient status e && not interrupted

-- What a call returns if it ends with this attempt: the value, the error of a sleep that was cut short,
-- or the attempt's own error.
abbrev pub verdict_of {ℓ} : {A : Type ℓ} → ℕ → Outcome A → Bool → Outcome A
verdict_of status (value v) interrupted = value v
verdict_of status (error e) interrupted =
    if is_transient status e && interrupted then error cancelled else error e

module _ {ℓ κ} {A : Type ℓ} {S : Type κ} where
  settle_on :
      (a : Attempt) (status : ℕ) (outcome : Outcome A) (s : S) (rest : S × Outcome A)
      → goes_on status outcome a.interrupted ≡ true
      → settle a status outcome s rest ≡ rest
  settle_on a status (value v) s rest h = cc
  settle_on a status (error e) s rest h = ground arith

  settle_end :
      (a : Attempt) (status : ℕ) (outcome : Outcome A) (s : S) (rest : S × Outcome A)
      → goes_on status outcome a.interrupted ≡ false
      → settle a status outcome s rest ≡ (s, verdict_of status outcome a.interrupted)
  settle_end a status (value v) s rest h = refl
  settle_end a status (error e) s rest h = ground arith

error_of-verdict_of {ℓ} :
    {A : Type ℓ} (status : ℕ) (last outcome : Outcome A) (interrupted : Bool)
    → goes_on status outcome interrupted ≡ true
    → error_of last outcome ≡ verdict_of status outcome interrupted
error_of-verdict_of status last (value v) interrupted h = cc
error_of-verdict_of status last (error e) interrupted h = ground arith

module _ {ℓ} {A : Type ℓ} (decode : Bytes → Option A) (attempts : ℕ → Attempt) where
  -- the attempt `n` fails in a way that is tried again
  abbrev pub Continues : ℕ → Type 0
  Continues n =
      let (status, outcome) = do_info decode (attempts n).exchange in
      goes_on status outcome (attempts n).interrupted ≡ true

  abbrev pub verdict : ℕ → Outcome A
  verdict n =
      let (status, outcome) = do_info decode (attempts n).exchange in
      verdict_of status outcome (attempts n).interrupted

  -- The loop ends with the attempt `m`.
  pub record EndsWith (left n m : ℕ) : Type 0 where
    pub enough : (n ≤ m) × (m ≤ n + left)
    pub before : (j : ℕ) → n ≤ j → j < m → Continues j
    pub last : (¬ Continues m) ⊎ (m ≡ n + left)

  ends_here : (left n m : ℕ) → m ≡ n → (¬ Continues n) ⊎ (n ≡ n + left) → EndsWith left n m
  ends_here left n m e l = record {
    enough = omega arith;
    before = λ j h k. absurd (omega arith);
    last = rw e l;
  }

  ends_later : (left n m : ℕ) → Continues n → EndsWith left (suc n) m → EndsWith (suc left) n m
  ends_later left n m on ends = record {
    enough = omega (arith, ends.enough);
    before = λ j h k. elim (ℕ_discrete n j) [
      | yes e ↦ subst Continues e on
      | no ne ↦ ends.before j (omega arith) k
    ];
    last = elim ends.last [ inl stops ↦ inl stops | inr e ↦ inr (omega arith) ];
  }

module _ {ℓ κ λ'} {S : Type ℓ} {E : Type κ} {A : Type λ'} (limiter : RateLimiter S E)
    (decode : Bytes → Option A) (endpoint : String) (attempts : ℕ → Attempt) where
  -- `Record` for so many attempts, from the attempt `n` on
  unfoldable pub records : (count n : ℕ) → S → S
  records zero n s = s
  records (suc count) n s = records count (suc n) (noted limiter decode endpoint attempts n s)

  pub retry_continue :
      (left n : ℕ) (last : Outcome A) (s : S)
      → Continues decode attempts n
      → retry limiter decode endpoint attempts (suc left) n last s
        ≡ retry limiter decode endpoint attempts left
            (suc n)
            (error_of last (do_info decode (attempts n).exchange).1)
            (noted limiter decode endpoint attempts n s)
  unfolding retry
  retry_continue left n last s on =
      settle_on (attempts n) (do_info decode (attempts n).exchange).0 _ _ _ on

  pub retry_value :
      (left n : ℕ) (last : Outcome A) (s : S) {status : ℕ} {v : A}
      → do_info decode (attempts n).exchange ≡ (status, value v)
      → retry limiter decode endpoint attempts (suc left) n last s
        ≡ (noted limiter decode endpoint attempts n s, value v)
  unfolding retry
  retry_value left n last s found =
      let s' = noted limiter decode endpoint attempts n s in
      let last' = error_of last (do_info decode (attempts n).exchange).1 in
      let rest = retry limiter decode endpoint attempts left (suc n) last' s' in
      ap (λ (p : ℕ × Outcome A). settle (attempts n) p.0 p.1 s' rest) found

  retry_lem :
      (left n : ℕ) (last : Outcome A) (s : S)
      → (k : ℕ) × EndsWith decode attempts left n (n + k)
        × (retry limiter decode endpoint attempts (suc left) n last s
            ≡ (records (suc k) n s, verdict decode attempts (n + k)))
  unfolding retry records
  retry_lem zero n last s =
      let a = attempts n in
      let (status, outcome) = do_info decode a.exchange in
      let s' = noted limiter decode endpoint attempts n s in
      (
        0,
        ends_here decode attempts 0 n (n + 0) (omega arith) (inr (omega arith)),
        rw add-zero (elim (Bool-cases (goes_on status outcome a.interrupted)) [
          | inl on ↦
              settle_on a status outcome s' (s', error_of last outcome) on
              ∙ rw (error_of-verdict_of status last outcome a.interrupted on)
          | inr off ↦ settle_end a status outcome s' (s', error_of last outcome) off
        ]),
      )
  retry_lem (suc left) n last s =
      let a = attempts n in
      let (status, outcome) = do_info decode a.exchange in
      let s' = noted limiter decode endpoint attempts n s in
      let last' = error_of last outcome in
      let rest = retry limiter decode endpoint attempts (suc left) (suc n) last' s' in
      elim (Bool-cases (goes_on status outcome a.interrupted)) [
        | inl on ↦
            let (k, ends, same) = retry_lem left (suc n) last' s' in
            let shift : n + suc k ≡ suc n + k = omega arith in
            (
              suc k,
              ends_later decode attempts left n (n + suc k) on (rw shift ends),
              settle_on a status outcome s' rest on ∙ same ∙ rw (← shift),
            )
        | inr off ↦ (
          0,
          ends_here decode attempts (suc left) n (n + 0) (omega arith) (inl (λ on. cc)),
          rw add-zero (settle_end a status outcome s' rest off),
        )
      ]

  -- Once `Wait` lets the call pass, `info` makes at most four attempts and ends with the first one that
  -- succeeds, that fails for good, or whose sleep is cut short, or else with the fourth. Each attempt
  -- made is recorded once, and the call returns what that last attempt gives.
  pub info_attempts :
      (critical : Bool) (additional : ℤ) (gap : E) (s s' : S)
      → limiter.wait endpoint (limiter.weight s endpoint additional) critical gap s ≡ (s', admitted)
      → (m : ℕ) × EndsWith decode attempts 3 0 m
        × (info limiter decode endpoint attempts critical additional gap s
            ≡ (records (suc m) 0 s', returned (verdict decode attempts m)))
  unfolding info
  info_attempts critical additional gap s s' pass =
      let (k, ends, same) = retry_lem 3 0 (error cancelled) s' in
      (0 + k, ends, rw pass (ap (λ (p : S × Outcome A). (p.0, returned p.1)) same ∙ rw zero-add))
