-- ===== src/Lib.antt =====
-- The backend of maelstromhub: a server that collects market data of an exchange, computes features and
-- flags of the markets from it, and serves them to a dashboard.
--
-- The program's parts, and the files that model them:
-- * Limiter, Limiter/ (backend/internal/limiter/weighted.go): the weighted rate limiter. `Weighted` is
--   its state, and `new`, `weight`, `budget`, `record_request`, `metrics` and `wait` are its methods.
--   Limiter/Steps has the steps that goroutines make under the mutex, and a run is any list of them.
--   Limiter/Wait is the loop of `Wait`, Limiter/Metrics the view of the limiter. The other files below
--   Limiter have the theorems.
-- * Client, Client/ (backend/internal/hyperliquid/client.go): the client of the exchange. `do_info` is
--   one request, `retry` the loop of attempts, `info` the whole call, over the interface `RateLimiter`.
--   Client/New makes a client. Client/Limited puts the limiter into it, as the server does. Client/Requests
--   has the requests for each kind of data, and Client/Window the extra weight of a time window.
-- * Models (backend/internal/models/types.go): the rows that the parts exchange; Models/Decimal reads
--   a number of the exchange.
-- * Features, Features/ (backend/internal/features/calc.go): the statistics (Features/Stats), the
--   features, the score and the regime of a market, its flags (Features/Flags) and the rescaling of the
--   scores over all markets (Features/CrossSection).
-- * Ingest, Ingest/ (backend/internal/ingest/scheduler.go): the jobs. Ingest/Locks has the scheduler's
--   `run` and `loop` with the locks and the run log of backend/internal/store/store.go, and Ingest/Mutex looks
--   at the locks from all instances of the server; Ingest/Exclusion has the runs of all instances as a relation
--   of steps. Ingest/Books has the summaries of an order book and of
--   trades. Ingest/Meta, Ingest/Mids, Ingest/Jobs and Ingest/Compute are the jobs: the last one takes candles,
--   calls Features, and gives features and flags; Ingest/Pipeline has it read and write the tables; those of
--   Ingest/Jobs fetch with the requests of Client/Requests, for the coins that the queries choose, and write to
--   the database.
--   Ingest/Start is what `Start` starts, and Ingest/Stop, Ingest/Stop/Returns are the goroutines of the loops
--   with the wait group, and `Stop`; a goroutine whose ticker cannot be made panics.
-- * Store, Store/ (backend/internal/store/store.go): the tables of the database, and the methods that write
--   to them. Store/Batch is a batch of statements, Store/Rows a table with a key, and Store/Keys the keys of two
--   columns or more.
-- * Query, Query/ (backend/internal/store/query.go): the queries. Query/Rows has those for one market,
--   Query/Coins those for the coins that the jobs work on, Query/Listing the list of the markets and
--   Query/Runs that of the runs. Query/Pool has the connections that a query holds, as a relation of steps.
--   Query itself is the suggestion that the dashboard shows for a market.
-- * Config, Config/ (backend/internal/config/config.go): the configuration, read from the environment.
--   Config/Text has the functions on texts, Config/Weights puts the weights into the limiter, as `main`
--   (backend/cmd/server/main.go) does, and Config/RoundTrip reads back what is written.
-- * Api, Api/ (backend/internal/api/router.go): the handlers of the HTTP API over the queries, the client and
--   the limiter. Api/Params reads the parameters of a request, Api/Bodies has what is written, and Api/Routes
--   the routes and the headers around the handlers. Api/Answers, Api/Errors, Api/Health, Api/Status, Api/Budget
--   and Api/Bounds have the theorems.
-- * Db, Db/ (backend/internal/db): the connections to PostgreSQL and Redis, and Db/Migrate the migrations.
-- * Server, Server/ (backend/cmd/server/main.go): `main`. Server/Start has how it starts, Server/Shutdown how
--   it ends, by its own code or by the panic of a loop, as a relation of steps with the loops of Ingest/Stop beside it.
-- * Prelude, Prelude/ and Float, Float/: what the files above share. Float/Defs is the interface of
--   float64, Float/Laws what the theorems rely on of it, and Float/Fixed an instance, decimal numbers
--   with three places, infinities and NaN, on which the tests and examples run.
--
-- How the code is modelled:
-- * A method of a shared object is a function from its state to its state. What holds a mutex is one
--   step; steps of other goroutines stand between them, as lists that the theorems leave open.
-- * A float64 is an element of a type with the operations of `Float`. The theorems name the laws of
--   IEEE 754 that they need, and the code is read without fused multiply-add.
-- * A time is a natural number of nanoseconds since Go's zero time, and every reading of the clock is an
--   argument. The difference of two times stops at the greatest `Duration`. Counters are 64-bit patterns.
-- * Randomness, the network, the database's answers and the context are arguments too: an `Attempt` of a
--   request, a `Round` of the limiter's loop, the `Answers` to one run of a job.
-- * The loop of `Wait` runs over the list of its rounds. A call that has not returned at the end of the
--   list is `pending`, so no number of rounds is built in. The four attempts of `info` are counted as in
--   the code.
-- * A statement of the database changes the table as its SQL says, or fails and changes nothing. `run`
--   takes the statements of one instance together; Ingest/Mutex has them in any order. A batch is one
--   transaction, as PostgreSQL and pgx have it. A query reads the tables as lists; where SQL leaves the order
--   of rows open, it is that of the list. The collation of texts is a parameter.
-- * A Go map is an association list. The iteration of `ingestMids` over one takes the order of the list.
-- * `strings.EqualFold`, `strings.ToUpper`, `strconv.ParseFloat`, `time.Parse` and the values that `json.Encoder`
--   accepts are parameters.
--
-- Not modelled: the HTTP and JSON libraries, pgx, the client of Redis and the file system, which are parameters;
-- the requests that are still in flight when the server stops; the text of a limiter's pause; the body that is
-- sent with a request to the exchange; the log; and the dashboard (frontend).
pub mod Prelude
pub mod Float
pub mod Models
pub mod Limiter
pub mod Client
pub mod Features
pub mod Ingest
pub mod Store
pub mod Query
pub mod Config
pub mod Api
pub mod Db
pub mod Server
