-- ===== src/Lib.antt =====
-- k8s-dencer: a model of the planning and execution core, with the theorems that make it correct.
--
-- The program reads a Kubernetes cluster into a snapshot (internal/model), asks which pods could stand
-- on which nodes (internal/constraints), plans which nodes to empty (internal/planner), and before every
-- step and every eviction asks a guard (internal/safety), which in turn asks for the open maintenance
-- windows (internal/window). The planner and the guard both work on a `Placement`, the mutable state
-- of internal/constraints, by `CanPlace`, `Place` and `Remove`. Each step is rated by its impact
-- (internal/impact). A request to execute is a row of the execution store (internal/store), from which the
-- executor (internal/executor) claims it: it drains one node after another against the live cluster,
-- asks the guard before each step and each eviction, and closes the run. The REST API lets a request through
-- to its handlers by the middleware of internal/auth.
--
-- Files, and the code that they model:
--   Base            shared helpers: tests, int64 and int32 arithmetic, lists, maps, sorting, float64
--   Model           internal/model: resources.go, constraints.go, cluster.go, plan.go
--   Constraints     internal/constraints: State, Placement, Predicates, CanPlace (placement.go),
--                   SpreadIndex (spreadindex.go), Analyzer (analyzer.go), Analysis and Summary
--                   (constraints.go);
--                   Coherence proves the spread index (Apart its fingerprints), Capacity the resource accounting, Drainable
--                   the answers of the analysis
--   Safety          internal/safety/safety.go: Checks; Clear, Refusal and Eviction prove the two entry
--                   points, Stuck what a refusal for lack of room means, Vacate, Rehome and Feasible the
--                   feasibility check, Verdict that the analyzer and
--                   the guard agree
--   Planner         internal/planner: Policy (planner.go) and Greedy (greedy.go); Evacuate proves the
--                   drain of one node, Choice the destination of a pod, Forward the direction of the
--                   moves, Bounds the counters
--   Window          internal/window/window.go: Evaluate; Opening and Covering prove it
--   Impact          internal/impact/impact.go: Classifier; Keys and Known prove the deduplication of
--                   reasons, Rating what a rating says of them, Disruption what it says of the step
--   Store           internal/store/execution.go (Runs) and internal/store/sqlstore/execution.go (Execution):
--                   a table is a list of rows and a statement one step on it; Taken proves what a claim
--                   does to a table, Claims the histories of the table, Trail the events, Keyed the key of
--                   the table, Refines its refinement of the lifecycle of a run, Lifecycle the end of a run
--   Executor        internal/executor: Session (cluster.go and the interfaces that the executor calls),
--                   Waiting and Steps (executor.go), Modes (executor.go, converge.go, drain_mode.go).
--                   An action takes a session, the state of the outside with the list of the calls so
--                   far, to its answer and the next session. Leads, Drains, Follows and Gives say what an
--                   action does to that list; Rails, Restores, Targets and Rounds prove the rails, Finishes
--                   and Completes that the waits end, Closing that a run is closed and what the store
--                   makes of it
--   Auth            internal/auth: Identity (auth.go), Middleware (middleware.go, authorizer.go) and Tokens
--                   (authenticator.go without the reading of headers); Permitted proves when a guarded
--                   handler runs, Recent on what an answer from the cache rests
--   Examples        a small cluster, two runs, an obliging outside and a caller on which the model is run
--
-- Conventions. A Go int64 or int is a number below 2 ^ 64 read as a signed bit pattern, an int32 one
-- below 2 ^ 32; arithmetic that wraps is written out. A counter of a loop over a list is kept without a
-- width where the list's length bounds it. A map is an association list whose first entry counts.
-- A pointer receiver or a shared map becomes a value that is passed on: `can_place` returns the placement,
-- whose spread index it may have extended. A refusal is a value with the arguments of the sentence that
-- the code prints. An error value is an answer (`Result`, `Option` or false), as it is in Go.
--
-- Fuel. Only the loops of `waitGone` and `verifyRecovered` wait for the outside, and take fuel: a number of
-- cycles. One more than the settle timeout divided by the poll interval is enough when the clock does not go
-- back, and a loop that runs out of it says so (`unfinished`), which no error of the code is: the code would still be
-- waiting, and the model leaves such a run open. The rounds of converge are bounded by the code, and every other loop is over a finite list.
--
-- Parameters. float64 is the record `Float64` (with the law that nothing is less than itself); the cron
-- parser, the zone database and the parsing of durations are the record `Clockwork`, whose laws are the
-- documented behaviour of `Next` within the five years that the library searches. The planner takes
-- of an analysis its verdict on each pod (`verdicts_of`), the guard the windows' verdict on a node. The
-- executor's cluster, stores and clock are the record `Outside`, whose operations may answer anything and
-- change anything, so that other writers, failures and expired contexts are all among them; only
-- that a step comes to a result, and with it that every run is closed, asks something of it: the laws
-- `Clock`. The API server's reviews of tokens and of
-- accesses may answer anything, and the digest of a token is any function.
--
-- Not modelled: the explanations of the analyzer, the details and rationales of ratings, the messages and
-- summaries of runs, metrics, the executor's endless poll loop and its option defaults, the Kubernetes
-- client behind the cluster interface, recommendations, node pools, the store of plans, the decoding of
-- database rows, the reading of a caller's headers, the REST API and its clients, the collector, the
-- command line, and what only prints. Plan and step identifiers are hashes of what is modelled and are
-- left out.
pub mod Base
pub mod Model
pub mod Impact
pub mod Constraints
pub mod Safety
pub mod Planner
pub mod Window
pub mod Store
pub mod Executor
pub mod Auth
pub mod Examples
