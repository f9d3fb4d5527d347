-- ===== src/Client/Examples.antt =====
-- The theorems about backend/internal/hyperliquid/client.go at concrete calls: a 429, then a value.
use maelstromhub.Prelude.{
  ℕ, zero, suc, ◌+◌, ◌%◌, ◌^◌, ◌≡◌, refl, true, false, Option, some, [], ◌∷◌, arith,
}
use maelstromhub.Prelude.Int.{pos, int64}
use maelstromhub.Prelude.Dict.{read, lookup, insert}
use maelstromhub.Float.Fixed.{
  Fixed, fixed_float, fixed_le, fixed_add, fixed_neg, fixed_mul, fixed_div, fixed_decimal,
  fixed_seconds, fixed_ceil, fixed_trunc,
}
use maelstromhub.Limiter.{Config, Weighted, second, new, weight, refill, budget}
use maelstromhub.Limiter.Steps.{Readings, poll, run, perform}
use maelstromhub.Limiter.Wait.{
  is_granted, wait, wait_loop, wait_queued, leave_queue, charge, reserve,
}
use maelstromhub.Limiter.Cooldown.{backoff}
use maelstromhub.Client.{
  Bytes, answer, value, Attempt, admitted, returned, info, do_info, read_limited,
}
use maelstromhub.Client.Retry.{EndsWith, records, verdict, info_attempts}
use maelstromhub.Client.Limited.{Gap, wait_in, weighted_limiter, info_charges_once, retry_in_pause}

abbrev config : Config
config = record { capacity_per_minute = pos 100; endpoint_weights = ("l2Book", pos 2) ∷ [] }

abbrev fresh : Weighted Fixed
fresh = new config 0

abbrev at : ℕ → Readings
at t = record { refill_at = t; check_at = t; until_at = t }

abbrev gap : Gap
gap = record {
  start = 0;
  between = [];
  rounds = record { now = at 0; others = []; done = false } ∷ [];
}

abbrev first_byte : Bytes → Option ℕ
first_byte [] = some 0
first_byte (b ∷ rest) = some b

abbrev limited_once : ℕ → Attempt
limited_once zero = record {
  exchange = answer 429 [];
  latency = 5;
  recorded_at = 7;
  jitter = 3;
  interrupted = false;
}
limited_once (suc n) = record {
  exchange = answer 200 (65 ∷ []);
  latency = 6;
  recorded_at = 300_000_000;
  jitter = 0;
  interrupted = false;
}

abbrev passed : Weighted Fixed
passed = (wait_in "l2Book" (pos 2) true gap fresh).0

passes : wait_in "l2Book" (weight fresh "l2Book" (pos 0)) true gap fresh ≡ (passed, admitted)
unfolding weight new wait wait_queued wait_loop leave_queue charge reserve poll refill budget read
    lookup fixed_le fixed_add fixed_neg fixed_mul fixed_div fixed_decimal fixed_seconds fixed_ceil
    fixed_trunc run perform insert int64
passes = refl

info_attempts_example :
    (m : ℕ) × EndsWith first_byte limited_once 3 0 m
    × (info weighted_limiter first_byte "l2Book" limited_once true (pos 0) gap fresh ≡ (
      records weighted_limiter first_byte "l2Book" limited_once (suc m) 0 passed,
      returned (verdict first_byte limited_once m),
    ))
info_attempts_example =
    info_attempts weighted_limiter first_byte "l2Book" limited_once true (pos 0) gap fresh passed
      passes

no_requests : read 0 "l2Book" passed.requests ≡ 0
unfolding weight new wait wait_queued wait_loop leave_queue charge reserve poll refill budget read
    lookup fixed_le fixed_add fixed_neg fixed_mul fixed_div fixed_decimal fixed_seconds fixed_ceil
    fixed_trunc run perform insert int64
no_requests = refl

no_cooldown : read 0 "l2Book" passed.cooldowns ≡ backoff 0
unfolding weight new wait wait_queued wait_loop leave_queue charge reserve poll refill budget read
    lookup fixed_le fixed_add fixed_neg fixed_mul fixed_div fixed_decimal fixed_seconds fixed_ceil
    fixed_trunc run perform insert int64 backoff
no_cooldown = refl

second_answers : do_info first_byte (answer 200 (65 ∷ [])) ≡ (200, value 65)
unfolding do_info read_limited
second_answers = refl

info_charges_once_example :
    let after = (info weighted_limiter first_byte "l2Book" limited_once true (pos 0) gap fresh).0 in
    (m : ℕ) × EndsWith first_byte limited_once 3 0 m
    × (after.tokens ≡ passed.tokens)
    × (read 0 "l2Book" after.requests ≡ (read 0 "l2Book" passed.requests + suc m) % 2 ^ 64)
info_charges_once_example =
    info_charges_once first_byte "l2Book" limited_once true (pos 0) gap fresh passed passes
      (omega (arith, no_requests))

retry_in_pause_example :
    let (after, result) =
      info weighted_limiter first_byte "l2Book" limited_once true (pos 0) gap fresh in
    (result ≡ returned (value 65))
    × (is_granted (poll "l2Book" (pos 2) (at second) after).1 ≡ false)
retry_in_pause_example =
    retry_in_pause first_byte "l2Book" limited_once true (pos 0) gap fresh passed [] 200 65 0
      (pos 2) (at second) passes refl refl second_answers no_cooldown (omega arith) (omega arith)
