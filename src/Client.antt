-- ===== src/Client.antt =====
-- backend/internal/hyperliquid/client.go: one exchange with the exchange's info endpoint, and the retries
-- around it.
--
-- The HTTP and JSON libraries are not modelled. What they give for one attempt is an `Exchange`, and
-- decoding is a parameter. The limiter is the interface `RateLimiter` of the code.
pub mod Retry
pub mod Window
pub mod New
pub mod Limited
pub mod Bounded
pub mod Requests
mod Examples
use maelstromhub.Prelude.{
  ℕ, zero, suc, ◌+◌, ◌-◌, ◌*◌, ◌/◌, ◌^◌, Bool, true, false, ◌||◌, Option, none, some, List, [], ◌∷◌,
  String, take, ltb, leb, ◌==◌, if◌then◌else◌,
}
use maelstromhub.Prelude.Int.{ℤ, pos, negsuc}

abbrev pub Bytes : Type 0
Bytes = List ℕ

-- Why a call fails. The flags say whether the error is `context.DeadlineExceeded`.
pub data CallError : Type 0 where
  not_encoded : CallError
  bad_request : CallError
  transport : Bool → CallError
  unreadable : Bool → CallError
  bad_status : ℕ → CallError
  empty_response : CallError
  malformed : CallError
  cancelled : CallError  -- `ctx.Err()` of a sleep
  refused : CallError  -- the error of the limiter's `Wait`
  wrong_length : ℕ → CallError  -- "expected 2 items, got n"

-- What the libraries do in one attempt.
pub data Exchange : Type 0 where
  no_body : Exchange  -- `json.Marshal` fails
  no_request : Exchange  -- `http.NewRequestWithContext` fails
  no_answer : Bool → Exchange  -- `c.http.Do` fails
  no_read : ℕ → Bool → Exchange  -- an answer with a status, whose body cannot be read
  answer : ℕ → Bytes → Exchange

-- `out`, or `err`
pub data Outcome {ℓ} (A : Type ℓ) : Type ℓ where
  value : A → Outcome A
  error : CallError → Outcome A

abbrev pub is_error {ℓ} : {A : Type ℓ} → Outcome A → Bool
is_error (value a) = false
is_error (error e) = true

-- `io.LimitReader(res.Body, 32<<20)`
unfoldable pub read_limited : Bytes → Bytes
read_limited body = take (32 * 2 ^ 20) body

module _ {ℓ} {A : Type ℓ} (decode : Bytes → Option A) where
  abbrev pub decoded : Option A → Outcome A
  decoded none = error malformed
  decoded (some a) = value a

  abbrev pub parse : Bytes → Outcome A
  parse [] = error empty_response
  parse (b ∷ rest) = decoded (decode (b ∷ rest))

  -- `doInfo`: the status, which is 0 where there is no answer, and the outcome
  unfoldable pub do_info : Exchange → ℕ × Outcome A
  unfolding read_limited
  do_info no_body = (0, error not_encoded)
  do_info no_request = (0, error bad_request)
  do_info (no_answer deadline) = (0, error (transport deadline))
  do_info (no_read status deadline) = (status, error (unreadable deadline))
  do_info (answer status body) =
      (status, if leb 400 status then error (bad_status status) else parse (read_limited body))

-- `errors.Is(err, context.DeadlineExceeded)`
abbrev pub is_deadline : CallError → Bool
is_deadline (transport deadline) = deadline
is_deadline (unreadable deadline) = deadline
is_deadline not_encoded = false
is_deadline bad_request = false
is_deadline (bad_status s) = false
is_deadline empty_response = false
is_deadline malformed = false
is_deadline cancelled = false
is_deadline refused = false
is_deadline (wrong_length n) = false

-- the test by which `info` tries again
abbrev pub is_transient : ℕ → CallError → Bool
is_transient status e = status == 429 || leb 500 status || is_deadline e

-- What the environment decides about one attempt; times and durations are in nanoseconds.
pub record Attempt : Type 0 where
  pub exchange : Exchange
  pub latency : ℕ
  pub recorded_at : ℕ
  pub jitter : ℕ  -- `rand.Intn(100)`
  pub interrupted : Bool  -- the context is done before the sleep is over

abbrev pub millisecond : ℕ
millisecond = 1_000_000

-- the sleep after a transient failure
unfoldable pub delay : ℕ → ℕ → ℕ
delay attempt jitter = 150 * 2 ^ attempt * millisecond + jitter * millisecond

-- What `Wait` does: let the call pass, refuse it, or not return.
pub data Admission : Type 0 where
  admitted rejected waiting : Admission

-- `type RateLimiter interface`, over the limiter's state and what its environment decides in a `Wait`
pub record RateLimiter {ℓ κ} (S : Type ℓ) (E : Type κ) : Type (ℓ ⊔ κ) where
  pub wait : String → ℤ → Bool → E → S → S × Admission
  pub weight : S → String → ℤ → ℤ
  pub note : String → ℕ → Bool → ℕ → ℕ → S → S

-- How a call ends: with an outcome, or not while its environment lasts.
pub data Ended {ℓ} (A : Type ℓ) : Type ℓ where
  returned : Outcome A → Ended A
  blocked : Ended A

module _ {ℓ κ} {A : Type ℓ} {S : Type κ} where
  -- after an attempt: return, sleep and go on, or give up
  abbrev pub settle : Attempt → ℕ → Outcome A → S → S × Outcome A → S × Outcome A
  settle a status (value v) s rest = (s, value v)
  settle a status (error e) s rest =
      if is_transient status e
      then (if a.interrupted then (s, error cancelled) else rest)
      else (s, error e)

abbrev pub error_of {ℓ} : {A : Type ℓ} → Outcome A → Outcome A → Outcome A
error_of last (value v) = last
error_of last (error e) = error e

module _ {ℓ κ λ'} {S : Type ℓ} {E : Type κ} {A : Type λ'} (limiter : RateLimiter S E)
    (decode : Bytes → Option A) (endpoint : String) (attempts : ℕ → Attempt) where
  -- the call of `Record` after one attempt
  abbrev pub noted : ℕ → S → S
  noted n s =
      let a = attempts n in
      let (status, outcome) = do_info decode a.exchange in
      limiter.note endpoint a.latency (is_error outcome) status a.recorded_at s

  -- the loop of `info` from the attempt `n` on, with `left` attempts to go and `lastErr` so far
  unfoldable pub retry : (left n : ℕ) → Outcome A → S → S × Outcome A
  retry zero n last s = (s, last)
  retry (suc left) n last s =
      let a = attempts n in
      let (status, outcome) = do_info decode a.exchange in
      let s' = noted n s in
      let rest = retry left (suc n) (error_of last outcome) s' in settle a status outcome s' rest

  abbrev admit : S × Admission → S × Ended A
  admit (s, admitted) = let (s', outcome) = retry 4 0 (error cancelled) s in (s', returned outcome)
  admit (s, rejected) = (s, returned (error refused))
  admit (s, waiting) = (s, blocked)

  -- `info`
  unfoldable pub info : Bool → ℤ → E → S → S × Ended A
  info critical additional gap s =
      admit (limiter.wait endpoint (limiter.weight s endpoint additional) critical gap s)
