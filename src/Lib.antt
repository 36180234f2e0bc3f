-- ===== src/Lib.antt =====
-- hbs-queue: a service that takes provisioning orders over HTTP, queues a job for each in Postgres
-- and runs the job as a workflow of steps whose progress is persisted after each step.
--
-- Parts and how they interact. A worker (internal/jobs) takes a job from the queue, opens a
-- transaction and hands it to the workflow runner (internal/workflow/runner.go). The runner loads or
-- creates the row of the job through a repository (internal/workflow/state.go), runs the steps from
-- the row's current step on, and writes the row after each. Steps and handlers call VMware Cloud
-- Director through a client (internal/clients/vcd) that caches a token and tries requests again by
-- means of internal/retry. The HTTP layer (internal/httpapi) authenticates a request, checks its
-- payload, looks its organization up in the VCD and queues the job. The command (cmd/hbsqueue) opens
-- the pool, migrates the database, starts the queue and the listeners, and stops them again.
--
-- Files, by part:
--   Workflow/State     internal/workflow/state.go: WorkflowState, GetString, GetInt, Set
--   Workflow/Step      internal/workflow/step.go: Step, PermanentError, IsPermanent
--   Workflow/Repository, Workflow/Database, Workflow/Pgx
--                      internal/workflow/state.go: Repository and its laws; the three SQL statements
--                      as a parameter; PgxRepository over them
--   Workflow/Runner    internal/workflow/runner.go: Run, split into start, the loop run_steps,
--                      fail_step and complete. Execute is the reference without a database, Refines
--                      and Resume compare the two, Sound and Done are about runs that return nil,
--                      Isolated about the rows of other jobs, and Restart about executing a workflow
--                      from its first step again
--   Jobs/Args          internal/jobs/args.go
--   Jobs/OnboardOrg    internal/jobs/onboard_org.go: argsToData, the seven stub steps, Work. Accumulated
--                      and Typed are about the payload, Transaction and Atomic about one attempt,
--                      Restart about the one after it, Backlog about a list of new jobs and Workers
--                      about several workers side by side
--   Retry              internal/retry/retry.go: Do, baseDelay, jitter
--   Vcd/ApiError, Vcd/Errors
--                      internal/clients/vcd/errors.go
--   Vcd/Client, Vcd/Request
--                      internal/clients/vcd/client.go, codec.go, org.go, vdc.go: the token, and do
--                      with its callers. LookUp is about what the callers return, Rejected and Drained
--                      about what is sent again
--   Vcd/Shared         the same client under concurrent calls: a step relation on what the goroutines
--                      share, the mutex included. Invariant, Mutex and Safety are about every
--                      interleaving, Alone compares an undisturbed goroutine with Vcd/Client
--   Vcd/Types          internal/clients/vcd/types.go
--   Http/Message       net/http as the handlers see it, and encode of internal/httpapi/encode.go
--   Http/Numbers       strconv.ParseInt, time.Since and hex.EncodeToString for the webhooks
--   Http/Middleware    internal/httpapi/middleware.go, and the chain of internal/httpapi/server.go
--   Http/Requests, Http/Hooks
--                      internal/httpapi/types.go, and decodeValid of encode.go
--   Http/Handlers      internal/httpapi/handlers.go, and the stubs of the hooks
--   Http/Routes        internal/httpapi/routes.go
--   Http/Service       internal/httpapi/server.go, the whole of NewServer: Guarded is about the handlers,
--                      Layers about the middleware, Keyless about both together
--   Config             internal/config/config.go
--   Http/OnboardOrg    internal/httpapi/handle_onboard_org.go
--   Orders             an order from the handler to the end of its job's workflow; Orders/Service puts
--                      the whole HTTP layer before it, and Orders/Calls is about its calls of the VCD
--   Task               calls that leave a trace of events and may fail; Traces has the rules for what a
--                      task emits in any case (Emits) and what it has emitted when it succeeds (Writes)
--   Db/Pool, Db/River, Db/Migrate
--                      internal/db/db.go, river.go and migrate.go
--   Command            cmd/hbsqueue/main.go, and Register of internal/jobs/workers.go; Bracket is about
--                      every run, Ends about how a run ends
--   Command/Debug      cmd/hbsqueue/debug.go
--   Errors, Strings    Go's error values and the functions of package strings that the code calls
--   Scenarios          concrete runs
--
-- State and effects. What the program changes is passed along: a database `D` or transaction `Tx`, an
-- outside world `W` that steps act on, a network `N` that the client sends requests to. An error
-- value is a GoError, which keeps what errors.Is, errors.As and Error see of it; a run-time panic is
-- an outcome of its own. Numbers of Go's type int that are never negative are natural numbers;
-- time.Duration is an int64 with its wrap-around written out (Prelude/Int).
--
-- Parameters, for code that is not part of the repository: the SQL statements (Workflow/Database,
-- with their documented effect in DatabaseLaws; Workflow/Database/Table is an instance), the
-- connection pool (Jobs/OnboardOrg, Pool, and MergeLaws of its Workers for transactions side by
-- side), the random source, the clock and the context (Retry), the network, JSON decoding and query
-- encoding (Vcd/Client, Platform), HMAC-SHA256, the log and the source of request IDs
-- (Http/Middleware), the insertion of a job (Http/OnboardOrg) and what the queue hands to the
-- worker (Orders, IsReachable), the driver of the pool, the queue's own migrations and client and
-- the embedded files (Db), what ends the wait of the service and what is finished while it shuts
-- down (Command, Host), the handlers of pprof and expvar (Command/Debug), and the lower-casing of
-- text that is not ASCII (Strings). sort.Strings is an insertion sort (Db/Migrate).
--
-- What PostgreSQL refuses is a limit of these parameters: a row for a job is promised only where it
-- fits the columns of internal/db/migrations (Jobs/OnboardOrg, fits_columns), and an update only where
-- its document and its error text are such as the columns take (Workflow/Repository, IsAvailable and
-- KeepsStorable). A call of the http client may follow redirects: Orders/Calls counts requests in
-- multiples of the most that one call sends.
--
-- Loops end without fuel: the steps of a workflow are a list, and a retry counts its attempts down.
-- Only two helpers take a number of rounds: trimming white space (Strings, strip) takes the length of
-- the text, of which each round uses up a byte at least (Strings/Strip), and printing a number
-- (Prelude/Lists, decimal_from) takes one more than the number, of which each round drops a digit.
--
-- Not modelled: log lines other than that of a finished request, how net/http picks a route (what is
-- used of it is MuxLaws in Http/Service), what the settings of an HTTP client or server do, the text of
-- the dashboard, and the goroutines of the listeners and of the queue beside run: their start and their
-- stop are events of its trace. Where workers run side by side (Jobs/OnboardOrg/Workers), the steps of
-- one run are one turn, which those of the others do not interrupt.
mod Prelude
pub mod Strings
pub mod Errors
pub mod Retry
pub mod Vcd
pub mod Workflow
pub mod Jobs
pub mod Config
pub mod Http
pub mod Task
pub mod Db
pub mod Command
pub mod Orders
mod Scenarios
