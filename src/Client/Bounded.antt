-- ===== src/Client/Bounded.antt =====
-- That a call of the client (backend/internal/hyperliquid/client.go) keeps the bucket of the limiter between empty and full.
use maelstromhub.Prelude.{
  ℕ, zero, suc, ◌≡◌, refl, ◌⊎◌, inl, inr, Bool, Option, String, All, ap, sym,
}
use mathlib.Core.Path.{subst}
use maelstromhub.Prelude.Int.{ℤ, pos, ◌≤ℤ◌}
use maelstromhub.Float.{Float}
use maelstromhub.Float.Laws.{IsOrdered, IsArithmetic}
use maelstromhub.Limiter.{Weighted, weight}
use maelstromhub.Limiter.Steps.{request, perform}
use maelstromhub.Limiter.Wait.{charge}
use maelstromhub.Limiter.Bounds.{IsBounded, IsCharge, perform-IsBounded}
use maelstromhub.Limiter.Bounds.Wait.{IsTame, wait-IsBounded}
use maelstromhub.Client.{
  Bytes, Attempt, Admission, admitted, rejected, waiting, Ended, do_info, is_error, noted, info,
}
use maelstromhub.Client.Retry.{records, info_attempts}
use maelstromhub.Client.Limited.{Gap, wait_in, weighted_limiter}

-- No other goroutine charges a negative weight while the call waits.
abbrev pub IsQuiet : Gap → Type 0
IsQuiet gap = All IsCharge gap.between × All IsTame gap.rounds

Admission-cases : (a : Admission) → (a ≡ admitted) ⊎ ((a ≡ rejected) ⊎ (a ≡ waiting))
Admission-cases admitted = inl refl
Admission-cases rejected = inr (inl refl)
Admission-cases waiting = inr (inr refl)

module _ {ℓ κ} {F : Type ℓ} ⦃d : Float F⦄ {A : Type κ} (order : IsOrdered F) (laws : IsArithmetic F)
    (decode : Bytes → Option A) (endpoint : String) (attempts : ℕ → Attempt) where
  records-IsBounded :
      (count n : ℕ) (l : Weighted F)
      → IsBounded l
      → IsBounded (records weighted_limiter decode endpoint attempts count n l)
  unfolding records perform
  records-IsBounded zero n l h = h
  records-IsBounded (suc count) n l h =
      let a = attempts n in
      let (status, outcome) = do_info decode a.exchange in
      records-IsBounded count (suc n) (noted weighted_limiter decode endpoint attempts n l) (
        perform-IsBounded order laws
          (request endpoint a.latency (is_error outcome) status a.recorded_at) l tt h)

  -- A call of the client leaves the bucket between empty and full, whatever the exchange answers and however the
  -- call ends.
  pub info-IsBounded :
      (critical : Bool) (additional : ℤ) (gap : Gap) (l : Weighted F)
      → pos 0 ≤ℤ charge endpoint (weight l endpoint additional) l
      → IsQuiet gap
      → IsBounded l
      → IsBounded (info weighted_limiter decode endpoint attempts critical additional gap l).0
  unfolding info
  info-IsBounded critical additional gap l hw (between, rounds) h =
      let w = weight l endpoint additional in
      let p = wait_in endpoint w critical gap l in
      let waited =
        wait-IsBounded order laws endpoint w critical gap.start gap.between gap.rounds l hw between
          rounds h in
      elim (Admission-cases p.1) [
        | inl pass ↦
            let (m, ends, same) =
              info_attempts weighted_limiter decode endpoint attempts critical additional gap l p.0
                (ap (λ (a : Admission). (p.0, a)) pass) in
            subst IsBounded (sym (ap (λ (q : Weighted F × Ended A). q.0) same))
              (records-IsBounded (suc m) 0 p.0 waited)
        | inr (inl refused) ↦ rw refused waited
        | inr (inr still) ↦ rw still waited
      ]
