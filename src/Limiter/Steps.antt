-- ===== src/Limiter/Steps.antt =====
-- The steps of backend/internal/limiter/weighted.go as goroutines interleave them: each holds the
-- mutex, so any sequence of them is a run of the limiter.
use Prim.Native.Nat.{min}
use maelstromhub.Prelude.{ℕ, ◌+◌, Bool, List, [], ◌∷◌, String, ltb, if◌then◌else◌}
use maelstromhub.Prelude.Int.{ℤ}
use maelstromhub.Prelude.Dict.{read}
use maelstromhub.Float.{Float, of_int}
use maelstromhub.Limiter.{Weighted, second, since, up, down, refill, record_request}

-- The clock readings of one round of the loop of `Wait`, in order.
pub record Readings : Type 0 where
  pub refill_at : ℕ
  pub check_at : ℕ
  pub until_at : ℕ

pub data Polled : Type 0 where
  paused : ℕ → Polled  -- the endpoint is paused: sleep so long
  granted : Polled
  short : Polled  -- too few tokens

-- What a goroutine does to the limiter while it holds the mutex.
pub data Action : Type 0 where
  request : String → ℕ → Bool → ℕ → ℕ → Action  -- `Record`
  look : ℕ → Action  -- the refill of `Budget` and of `Metrics`
  enter : Action  -- `l.queueDepth++`
  leave : Action  -- `l.queueDepth--`
  try : String → ℤ → Readings → Action  -- a round of the loop of another `Wait`

-- how many steps of a run pass the test
abbrev pub count : (Action → Bool) → List Action → ℕ
count p [] = 0
count p (a ∷ actions) = (if p a then 1 else 0) + count p actions

module _ {ℓ} {F : Type ℓ} ⦃d : Float F⦄ where
  open d use {sub, le}

  -- One round of the loop of `Wait`, under the mutex.
  unfoldable pub poll : String → ℤ → Readings → Weighted F → Weighted F × Polled
  poll endpoint weight now l =
      let l' = refill now.refill_at l in
      let until = read 0 endpoint l'.paused_until in
      if ltb now.check_at until
      then (l', paused (min (since until now.until_at) second))
      else if le (of_int weight) l'.tokens
      then (record l' { tokens = sub l'.tokens (of_int weight) }, granted)
      else (l', short)

  unfoldable pub perform : Action → Weighted F → Weighted F
  perform (request endpoint latency failed status now) l =
      record_request endpoint latency failed status now l
  perform (look now) l = refill now l
  perform enter l = record l { queue_depth = up l.queue_depth }
  perform leave l = record l { queue_depth = down l.queue_depth }
  perform (try endpoint weight now) l = (poll endpoint weight now l).0

  unfoldable pub run : List Action → Weighted F → Weighted F
  run [] l = l
  run (a ∷ actions) l = run actions (perform a l)
