-- ===== src/Limiter/Cooldown.antt =====
-- The 429 handling of backend/internal/limiter/weighted.go: how long an endpoint is paused.
use Prim.Native.Nat.{min}
use text.Mathlib.Text.{◌==◌ as str_eq}
use text.Mathlib.TextEquality.{eq_iff}
use native.Mathlib.Nat.{pow-suc, add-zero, zero-add}
use maelstromhub.Prelude.{
  ℕ, zero, suc, ◌+◌, ◌*◌, ◌^◌, ◌≤◌, ◌≡◌, refl, Bool, false, ◌&&◌, List, [], ◌∷◌, String, arith,
  ◌==◌, if◌then◌else◌, Bool-cases, inl, inr, ◌∙◌, ap,
}
use maelstromhub.Prelude.Dict.{read, lookup, read-insert}
use maelstromhub.Float.{Float}
use maelstromhub.Limiter.{
  Config, Weighted, second, minute, new, refill, next_cooldown, record_request,
}
use maelstromhub.Limiter.Steps.{Action, request, look, enter, leave, try, poll, perform, run, count}

-- whether a step records a 429 of the endpoint
abbrev pub is_429_of : String → Action → Bool
is_429_of endpoint (request e t f status now) = str_eq e endpoint && status == 429
is_429_of endpoint (look now) = false
is_429_of endpoint enter = false
is_429_of endpoint leave = false
is_429_of endpoint (try e w now) = false

abbrev pub count_429s : String → List Action → ℕ
count_429s endpoint = count (is_429_of endpoint)

-- The cooldown after the k-th 429: 10, 20, 40, 80 and 160 seconds, and then five minutes.
unfoldable pub backoff : ℕ → ℕ
backoff zero = 0
backoff (suc k) = min (10 * second * 2 ^ k) (5 * minute)

pow_pos : (j : ℕ) → 1 ≤ 2 ^ j
pow_pos zero = omega arith
pow_pos (suc j) = omega (arith, pow-suc 2 j, pow_pos j)

pub next_cooldown-backoff : (k : ℕ) → next_cooldown (backoff k) ≡ backoff (suc k)
unfolding next_cooldown backoff
next_cooldown-backoff zero = refl
next_cooldown-backoff (suc k) = ground (arith, pow-suc 2 k, pow_pos k)

pub backoff-le : (k : ℕ) → backoff k ≤ 5 * minute
unfolding backoff
backoff-le zero = omega arith
backoff-le (suc k) = omega arith

pub ten_seconds : (k : ℕ) → 10 * second ≤ backoff (suc k)
unfolding backoff
ten_seconds k = omega (arith, pow_pos k)

pub le-next_cooldown : (c : ℕ) → c ≤ 5 * minute → c ≤ next_cooldown c
unfolding next_cooldown
le-next_cooldown c h = ground arith

pub next_cooldown-le : (c : ℕ) → next_cooldown c ≤ 5 * minute
unfolding next_cooldown
next_cooldown-le c = ground arith

module _ {ℓ} {F : Type ℓ} ⦃d : Float F⦄ where
  abbrev cooldown_of : String → Weighted F → ℕ
  cooldown_of endpoint l = read 0 endpoint l.cooldowns

  abbrev pause_of : String → Weighted F → ℕ
  pause_of endpoint l = read 0 endpoint l.paused_until

  cooldown_of-perform :
      (endpoint : String) (a : Action) (l : Weighted F)
      → cooldown_of endpoint (perform a l) ≡ (
          if is_429_of endpoint a
          then next_cooldown (cooldown_of endpoint l)
          else cooldown_of endpoint l)
  unfolding perform record_request refill poll
  cooldown_of-perform endpoint (request e t f s now) l = ground (
    arith,
    eq_iff e endpoint,
    read-insert 0 e endpoint (next_cooldown (cooldown_of e l)) l.cooldowns,
  )
  cooldown_of-perform endpoint (look now) l = ground arith
  cooldown_of-perform endpoint enter l = refl
  cooldown_of-perform endpoint leave l = refl
  cooldown_of-perform endpoint (try e w now) l = ground arith

  backoff-run :
      (endpoint : String) (actions : List Action) (l : Weighted F) (k : ℕ)
      → cooldown_of endpoint l ≡ backoff k
      → cooldown_of endpoint (run actions l) ≡ backoff (k + count_429s endpoint actions)
  unfolding run
  backoff-run endpoint [] l k h = rw add-zero h
  backoff-run endpoint (a ∷ actions) l k h = elim (Bool-cases (is_429_of endpoint a)) [
    | inl hit ↦ rw hit (
        backoff-run endpoint actions (perform a l) (suc k)
          (cooldown_of-perform endpoint a l ∙ rw (hit, h) (next_cooldown-backoff k))
        ∙ ap backoff (omega arith))
    | inr miss ↦ rw miss (
        backoff-run endpoint actions (perform a l) k (cooldown_of-perform endpoint a l ∙ rw miss h)
        ∙ ap backoff (omega arith))
  ]

module _ {ℓ} (F : Type ℓ) ⦃d : Float F⦄ where
  -- After any steps of any goroutines from a new limiter, the cooldown of an endpoint depends on the
  -- number of its 429s alone: `backoff` of that number. Successes in between do not reset it.
  pub cooldown-run :
      (cfg : Config) (start : ℕ) (endpoint : String) (actions : List Action)
      → read 0 endpoint (run {F = F} actions (new cfg start)).cooldowns
        ≡ backoff (count_429s endpoint actions)
  unfolding new read lookup backoff
  cooldown-run cfg start endpoint actions =
      backoff-run endpoint actions (new cfg start) 0 refl ∙ rw zero-add
