-- ===== src/Limiter.antt =====
-- backend/internal/limiter/weighted.go: the state of the weighted rate limiter and the methods that
-- hold its mutex. Each is one function from the state before to the state after.
--
-- A time is a number of nanoseconds since Go's zero time, and a method takes the clock readings that
-- it makes. A duration is a number of nanoseconds. The `int64` counters and the queue depth are kept
-- as 64-bit patterns. The capacity is a natural number: `new` stores only positive ones.
pub mod Steps
pub mod Wait
pub mod Bounds
pub mod Cooldown
pub mod Pause
pub mod Counters
pub mod Metrics
pub mod Starvation
pub mod Queue
pub mod Gate
pub mod Progress
mod Examples
use maelstromhub.Prelude.{
  ℕ, zero, ◌+◌, ◌-◌, ◌*◌, ◌/◌, ◌%◌, ◌^◌, Bool, ◌||◌, List, [], ◌∷◌, String, ltb, leb, ◌==◌,
  if◌then◌else◌,
}
use Prim.Native.Nat.{min}
use maelstromhub.Prelude.Int.{ℤ, pos, ◌+ℤ◌, leb_ℤ, ltb_ℤ, pos_part, int64}
use maelstromhub.Prelude.Dict.{Dict, lookup, insert, read}
use maelstromhub.Float.{Float, num, of_int}

abbrev pub second : ℕ
second = 1_000_000_000

abbrev pub minute : ℕ
minute = 60 * second

-- `now.Sub(last)` where it is not negative: it stops at the greatest `Duration`.
abbrev pub since : ℕ → ℕ → ℕ
since now last = min (now - last) (2 ^ 63 - 1)

pub record Config : Type 0 where
  pub capacity_per_minute : ℤ
  pub endpoint_weights : Dict ℤ

pub record Weighted {ℓ} (F : Type ℓ) : Type ℓ where
  pub capacity : ℕ
  pub tokens : F
  pub last_refill : ℕ
  pub weights : Dict ℤ
  pub requests : Dict ℕ
  pub failures : Dict ℕ
  pub latency_sum_ms : Dict F
  pub latency_count : Dict ℕ
  pub paused_until : Dict ℕ
  pub cooldowns : Dict ℕ
  pub queue_depth : ℕ
  pub count_429 : ℕ

-- `int64` and `int` counters, by their bit patterns
abbrev pub up : ℕ → ℕ
up n = (n + 1) % 2 ^ 64

abbrev pub down : ℕ → ℕ
down n = (n + (2 ^ 64 - 1)) % 2 ^ 64

abbrev pub default_capacity : ℤ → ℕ
default_capacity c = if leb_ℤ c (pos 0) then 1200 else pos_part c

-- The cooldown after a 429: ten seconds, then twice the last one up to five minutes.
unfoldable pub next_cooldown : ℕ → ℕ
next_cooldown cooldown =
    if leb cooldown 0
    then 10 * second
    else if ltb (5 * minute) (cooldown * 2)
    then 5 * minute
    else cooldown * 2

module _ {ℓ} {F : Type ℓ} ⦃d : Float F⦄ where
  open d use {add, sub, mul, div, lt, le, ceil, trunc, seconds, decimal}

  -- `NewWeighted` at the time `now`
  unfoldable pub new : Config → ℕ → Weighted F
  new cfg now = record {
    capacity = default_capacity cfg.capacity_per_minute;
    tokens = num (default_capacity cfg.capacity_per_minute);
    last_refill = now;
    weights = cfg.endpoint_weights;
    requests = [];
    failures = [];
    latency_sum_ms = [];
    latency_count = [];
    paused_until = [];
    cooldowns = [];
    queue_depth = 0;
    count_429 = 0;
  }

  -- `Weight`
  unfoldable pub weight : Weighted F → String → ℤ → ℤ
  weight l endpoint additional =
      let listed = read (pos 0) endpoint l.weights in
      let base = if leb_ℤ listed (pos 0) then pos 20 else listed in
      let extra = if ltb_ℤ additional (pos 0) then pos 0 else additional in int64 (base +ℤ extra)

  -- `refillLocked`: a clock that went back gives no seconds here, and a negative number of them in the
  -- code; both return at once.
  unfoldable pub refill : ℕ → Weighted F → Weighted F
  refill now l =
      let elapsed = seconds (since now l.last_refill) in
      let grown = add l.tokens (div (mul elapsed (num l.capacity)) (num 60)) in
      let full = num l.capacity in
      if le elapsed (num 0)
      then l
      else record l { tokens = if lt full grown then full else grown; last_refill = now }

  -- `Budget`: the state that its refill leaves, and `int(l.tokens)`
  unfoldable pub budget : ℕ → Weighted F → Weighted F × ℤ
  budget now l = let l' = refill now l in (l', trunc l'.tokens)

  -- the last block of `Record`, for a status of 429 at the time `now`
  unfoldable pub rate_limited : String → ℕ → Weighted F → Weighted F
  rate_limited endpoint now l =
      let cooldown = next_cooldown (read 0 endpoint l.cooldowns) in
      record l {
        count_429 = up l.count_429;
        cooldowns = insert endpoint cooldown l.cooldowns;
        paused_until = insert endpoint (now + cooldown) l.paused_until;
      }

  -- `Record`: `failed` is `err != nil`, and `latency` is in nanoseconds.
  unfoldable pub record_request : String → ℕ → Bool → ℕ → ℕ → Weighted F → Weighted F
  unfolding rate_limited
  record_request endpoint latency failed status now l =
      let sum = read (num 0) endpoint l.latency_sum_ms in
      let counted = record l {
        requests = insert endpoint (up (read 0 endpoint l.requests)) l.requests;
        latency_sum_ms = insert endpoint (add sum (num (latency / 1_000_000))) l.latency_sum_ms;
        latency_count = insert endpoint (up (read 0 endpoint l.latency_count)) l.latency_count;
        failures =
            if failed || leb 400 status
            then insert endpoint (up (read 0 endpoint l.failures)) l.failures
            else l.failures;
      } in
      if status == 429 then rate_limited endpoint now counted else counted
