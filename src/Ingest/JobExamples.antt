-- ===== src/Ingest/JobExamples.antt =====
-- The theorems about the jobs and the start of backend/internal/ingest/scheduler.go at concrete calls and settings.
use Prim.Native.String.{count}
use maelstromhub.Prelude.{
  ◌≡◌, length, ◌≤◌, ℕ, ◌↔◌, refl, Bool, true, false, Option, none, some, List, [], ◌∷◌, String, All,
  arith, leb,
}
use maelstromhub.Prelude.Int.{pos, ◌<ℤ◌, int64}
use maelstromhub.Float.Fixed.{
  Fixed, milli, fixed_float, fixed_le, fixed_add, fixed_neg, fixed_mul, fixed_div, fixed_decimal,
  fixed_seconds, fixed_ceil, fixed_trunc,
}
use maelstromhub.Client.{
  Bytes, answer, Attempt, RateLimiter, admitted, info, retry, do_info, read_limited,
}
use maelstromhub.Client.Requests.{Candle, Call, candle_snapshot, l2_book}
use maelstromhub.Config.{Environment, env, env_int, env_bool, load}
use maelstromhub.Config.Text.{trim_left, trim_right, atoi}
use maelstromhub.Store.{Database, micros}
use maelstromhub.Query.Coins.{active_coins, listed, shortlist_coins}
use maelstromhub.Query.Rows.{rows_where}
use maelstromhub.Prelude.Sort.{sort_by, insert_by}
use maelstromhub.Ingest.Jobs.{unix_milli, ingest_candles, ingest_l2_books}
use maelstromhub.Ingest.Stored.{HasCandle, state_before, ingest_candles-HasCandle}
use maelstromhub.Ingest.Books.{L2Book}
use maelstromhub.Limiter.{Weighted, new, weight, refill, budget}
use maelstromhub.Limiter.Steps.{poll, run, perform}
use maelstromhub.Limiter.Wait.{wait, wait_loop, wait_queued, leave_queue, charge, reserve}
use maelstromhub.Client.Limited.{Gap, weighted_limiter}
use maelstromhub.Ingest.Summaries.{ReturnsOf, count_values, book_calls, ingest_l2_books_returns}
use maelstromhub.Prelude.Dict.{read, lookup, insert}
use maelstromhub.Ingest.Locks.{try_lock, lock_ttl}
use maelstromhub.Ingest.Exclusion
use maelstromhub.Ingest.Exclusion.{Shared, shared, begins, passes, gives_up, runs_exclude}
use maelstromhub.Ingest.Start.{start, settings, IsTicking, start_iff}

-- a limiter that lets all calls pass
abbrev open_limiter : RateLimiter ℕ ℕ
open_limiter = record {
  wait = λ endpoint w critical gap s. (s, admitted);
  weight = λ s endpoint extra. extra;
  note = λ endpoint latency failed status at s. s;
}

abbrev n : ℕ → Fixed
n k = milli (pos k)

abbrev bar : Candle Fixed
bar = record {
  time = pos 1_700_000_000_000;
  close_time = pos 1_700_003_599_999;
  symbol = "BTC";
  opening = n 1;
  high = n 3;
  low = n 1;
  close = n 2;
  volume = n 9;
  raw = [];
}

abbrev one_bar : Bytes → Option (List (Candle Fixed))
one_bar bytes = some (bar ∷ [])

abbrev answered : Attempt
answered = record {
  exchange = answer 200 (91 ∷ []);
  latency = 5;
  recorded_at = 7;
  jitter = 3;
  interrupted = false;
}

abbrev calls : ℕ → Call ℕ
calls i = record { attempts = λ k. answered; gap = 0 }

abbrev by_length : String → String → Bool
by_length s t = leb (count s) (count t)

abbrev listing : Database Fixed
listing = record {
  markets =
      record {
        coin = "BTC";
        name = "BTC";
        sz_decimals = pos 5;
        max_leverage = pos 40;
        is_active = true;
        raw_meta = [];
      }
      ∷ [];
  market_snapshots = [];
  candles = [];
  features = [];
  flags = [];
  orderbook_snapshots = [];
  recent_trade_snapshots = [];
  cached = [];
}

abbrev accepted : ℕ → ℕ → Option String
accepted i j = none

abbrev end_time : ℕ
end_time = 63_900_000_000_000_000_000

ingest_candles-HasCandle_example :
    HasCandle
      ("BTC", "1h", micros (unix_milli (pos 1_700_000_000_000)))
      (ingest_candles open_limiter calls by_length none one_bar accepted
        (pos 14)
        ("1h" ∷ [])
        end_time
        (0, listing)).0.1
unfolding active_coins listed rows_where sort_by insert_by candle_snapshot info retry do_info
    read_limited state_before
ingest_candles-HasCandle_example =
    ingest_candles-HasCandle open_limiter calls by_length one_bar accepted (pos 14) ("1h" ∷ [])
      end_time 0 listing 0 0 "BTC" "1h" (bar ∷ []) bar (λ m m'. refl) (λ m h. absurd (omega arith))
      refl refl refl

-- no variable is set
abbrev bare_environment : Environment
bare_environment name = ""

start_iff_example :
    All IsTicking (start (load bare_environment))
    ↔ All (λ n. pos 0 <ℤ n) (settings bare_environment)
unfolding env_bool env_int env trim_left trim_right atoi
start_iff_example =
    start_iff bare_environment refl (omega arith, (omega arith, (omega arith, (omega arith, tt))))

abbrev flat_book : Bytes → Option (L2Book Fixed)
flat_book bytes = some (record { coin = "BTC"; levels = []; time = pos 1_700_000_000_000 })

-- a `Wait` whose context is done after its first look at the limiter
abbrev first_look : Gap
first_look = record {
  start = 0;
  between = [];
  rounds =
      record {
        now = record { refill_at = 0; check_at = 0; until_at = 0 };
        others = [];
        done = true;
      }
      ∷ [];
}

abbrev book_requests : ℕ → Call Gap
book_requests i = record { attempts = λ k. answered; gap = first_look }

abbrev fresh : Weighted Fixed
fresh = new (record { capacity_per_minute = pos 100; endpoint_weights = ("l2Book", pos 2) ∷ [] }) 0

-- The one coin of the shortlist gets its order book.
gets_book :
    count_values
      (book_calls book_requests flat_book)
      0
      (shortlist_coins by_length none (pos 5) listing).0
      fresh
    ≡ 1
unfolding count_values shortlist_coins listed rows_where sort_by insert_by l2_book info retry
    do_info read_limited weight new wait wait_queued wait_loop leave_queue charge reserve poll
    refill budget read lookup fixed_le fixed_add fixed_neg fixed_mul fixed_div fixed_decimal
    fixed_seconds fixed_ceil fixed_trunc run perform insert int64
gets_book = refl

ingest_l2_books_returns_example :
    ReturnsOf
      (count_values
        (book_calls book_requests flat_book)
        0
        (shortlist_coins by_length none (pos 5) listing).0
        fresh)
      (ingest_l2_books weighted_limiter book_requests by_length none flat_book
        (λ i. none)
        (pos 5)
        (λ i. 7)
        (fresh, listing)).1
ingest_l2_books_returns_example =
    ingest_l2_books_returns book_requests flat_book by_length none (λ i. none) (pos 5) (λ i. 7)
      fresh listing (λ n same. cc)

abbrev started_at_5 : Shared
started_at_5 = shared (try_lock 5 lock_ttl "candles" []).0 5 (5 ∷ [])

takes_first : (try_lock 5 lock_ttl "candles" []).1 ≡ true
unfolding try_lock lookup
takes_first = refl

second_refused : (try_lock 9 lock_ttl "candles" started_at_5.locks).1 ≡ false
unfolding try_lock lookup insert
second_refused = refl

-- A run begins, a second one gives up.
abbrev two_asks :
    Exclusion.Run "candles" lock_ttl
      (shared [] 5 [])
      (shared (try_lock 9 lock_ttl "candles" started_at_5.locks).0 9 (5 ∷ []))
two_asks =
    Exclusion.onward
      (Exclusion.onward (Exclusion.onward (Exclusion.here _) (begins [] 5 [] takes_first))
        (passes started_at_5.locks 5 9 (5 ∷ []) (omega arith)))
      (gives_up started_at_5.locks 9 (5 ∷ []) second_refused)

runs_exclude_example : length {A = ℕ} (5 ∷ []) ≤ 1
runs_exclude_example =
    runs_exclude "candles" lock_ttl 5 [] two_asks
      (((tt, (omega arith, tt)), (omega arith, tt)), (omega arith, tt))
