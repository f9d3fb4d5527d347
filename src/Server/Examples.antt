-- ===== src/Server/Examples.antt =====
-- The theorems about backend/cmd/server/main.go and backend/internal/db at concrete files and addresses.
use maelstromhub.Prelude.{
  ◌≢◌, if◌then◌else◌, arith, ℕ, ◌≡◌, refl, inl, inr, true, false, none, List, [], ◌∷◌, String, All,
  map,
}
use maelstromhub.Float.Fixed.{Fixed, fixed_float}
use maelstromhub.Config.{Environment, Config, load, env, env_int, env_bool, seconds_of}
use maelstromhub.Config.Text.{trim_left, trim_right, atoi}
use maelstromhub.Prelude.Int.{int64, ◌*ℤ◌}
use maelstromhub.Ingest.Start.{start, IsTicking}
use maelstromhub.Ingest.Stop.{gone, group}
use maelstromhub.Prelude.Sort.{sort_by, insert_by}
use maelstromhub.Db.Migrate.{contains, has_prefix, migrate_loop, System, migrate}
use maelstromhub.Server.{Setup, start_server}
use maelstromhub.Server.Start.{IsStarted, start_server-IsStarted}
use maelstromhub.Server.Shutdown.{
  Process, process, serving, crashed, ended, serving_process, Run, here, loops_end_first,
}
use maelstromhub.Server.Shutdown.Ends.{process_ends}
use text.Mathlib.Text.{◌==◌ as str_eq}

abbrev bare_environment : Environment
bare_environment name = ""

abbrev scripts : List String
scripts = "001_init.sql" ∷ "000_down.sql" ∷ "002_drawdown.sql" ∷ []

-- a database that lists the statements it has executed
abbrev files : System (List String)
files = record {
  join = λ dir pattern. pattern;
  base = λ file. file;
  glob = λ pattern. inr scripts;
  read_file = λ file. inr file;
  exec = λ sql db. (sql ∷ db, none);
}

abbrev setup : Setup ℕ ℕ String String (List String)
setup = record {
  postgres = record {
    parse_config = λ dsn. inr 0;
    with_max_conns = λ n cfg. n;
    new_with_config = λ cfg. inr cfg;
  };
  redis = record {
    parse_url = λ url. inr url;
    with_addr = λ addr. addr;
    new_client = λ opts. opts;
  };
  files = files;
  limiter_at = 1;
  scheduler_at = 2;
  started_at = 3;
}

-- A name that has "down" inside a word is left out too.
drawdown_left_out : migrate files "" [] ≡ ("001_init.sql" ∷ [], none)
unfolding migrate migrate_loop contains has_prefix sort_by insert_by
drawdown_left_out = refl

start_server-IsStarted_example :
    IsStarted {F = Fixed} setup bare_environment [] (start_server setup bare_environment [])
start_server-IsStarted_example = start_server-IsStarted setup bare_environment []

abbrev settings : Config
settings = load bare_environment

abbrev at_end : Process
at_end =
    process ended (group (map (λ phase. gone) (serving_process settings).loops.loops) 0 true) false
      false

All-IsTicking : All IsTicking (start settings)
unfolding start load env_bool env_int env trim_left trim_right atoi seconds_of int64 ◌*ℤ◌
All-IsTicking =
    (omega arith, (omega arith, (omega arith, (omega arith, (omega arith, (omega arith, tt))))))

process_ends_example : (serving ≢ crashed) × Run settings (serving_process settings) at_end
process_ends_example = process_ends settings All-IsTicking (here (serving_process settings))

ends : Run settings (serving_process settings) at_end
ends = (process_ends settings All-IsTicking (here (serving_process settings))).1

loops_end_first_example : All (λ phase. phase ≡ gone) at_end.loops.loops
loops_end_first_example = loops_end_first settings ends (inl refl)

abbrev zero_interval : Environment
zero_interval name = if str_eq name "TIER1_META_INTERVAL_SECONDS" then "0" else ""
