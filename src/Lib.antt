-- ===== src/Lib.antt =====
-- A model of Revix, a service that reviews pull requests, and the theorems about it.
--
-- A webhook puts a job for a commit into a PostgreSQL table. Workers claim jobs from it, keep a
-- heartbeat while they run one, ask language models for a review of the changed code, and commit
-- the outcome under a fence token. A reconciliation loop takes the jobs of dead workers back.
--
-- Prelude models what the code uses of Python and of SQL: texts as code points, sorting, tables as
-- lists of rows with UPDATE, DELETE and SELECT, JSON values. Effects has exceptions and
-- transactions. Access reads JSON payloads. World is the state of the webhook and the worker: the
-- database, and the requests that were sent to GitHub to change something.
--
-- Config is app/config.py: the settings (`Settings`), the private key, and the validator.
-- Schema is migrations/versions/0001_initial_schema.py: a record for the rows of each table, and
-- `Db`, all tables.
--
-- Webhook is app/main.py: the test of the signature and the handler of pull requests and of
-- comments with a command. `Services` holds what one request meets outside. Webhook/Signed,
-- Commands, Overridden and Queued hold proofs.
--
-- Queue is app/services/db/queue.py. Each method of `JobQueueRepository` is a function of the
-- database with the method's name. Its NOW(), the UUID that a default draws and the rows that other
-- transactions hold locked are arguments. Queue/Workers makes steps of these functions: a `World`
-- is a database with the tokens that `claim_job` has handed out, and a worker may use any of them at
-- any later time. Queue/Constraints, Selection, Ownership, Tracking, Fencing, Commit, Beating and
-- Recovery hold proofs, and Queue/Stored the rows that a commit leaves.
--
-- Ai is app/services/ai.py: the routing of agents (Agents), the changed lines of a patch (Patch),
-- the chunker (Chunks), the ranking of files and the budget (Files), and the indexer (Index).
-- Syntax has the trees; the parsers of tree-sitter and the UTF-8 codec are the argument `Toolkit`.
-- Chunks/Units and Index/Described say in their own terms what a chunk holds and what a definition in
-- a tree is; Chunks/Parts, Chunks/Packed, Index/Placed and Index/Symbols hold the proofs.
-- The calls of language models: the prompts (Prompts), the JSON in an answer (Answers), the
-- container for scripts (Sandbox), the tools that a call offers (Tools), its other arguments and
-- what is read of its answer (Models), `_coordinate_routing` (Coordinator),
-- `_analyze_chunk_with_agent` (Agent), `_reduce_summaries` (Synthesis) and `analyze_diff` (Swarm).
-- The models, Docker, `json.loads` and pydantic are the argument `Models`, of which `IsChecked`
-- says what pydantic documents.
--
-- Github is app/services/github.py: the comments (Comments), the installation tokens (Tokens), the
-- sources of the changed files (Sources), the review (Reviews) and the check runs (Checks). The
-- HTTP client is an argument.
-- Graph is app/services/db/graph.py: the tables of symbols and references.
--
-- Pool is app/services/db/core.py: `connect`, `disconnect`, `get_pool` and the wait for the tables.
--
-- Worker is app/worker.py: the retry policy (Retry), the inline comments (Inline), the texts for
-- GitHub (Format), `process_job` (Process), a round of the reconciliation (Reconcile), and the loop
-- of `run_forever` with its slots, its tasks and `shutdown`, as a step relation (Slots). In Process,
-- `Outside` holds what GitHub answers during one job. A transaction that the job needs goes
-- through, except that a commit may find its token stale.
--
-- System puts the parts together: a `Move` is one handler of the webhook, a worker or the
-- reconciliation, from its start to its end, on one database with the claims that the workers have.
--
-- Numbers are natural numbers without a bound, as in Python; the columns of the database are
-- taken to be wide enough. A UUID is the number that it encodes, and a time counts seconds. No
-- definition uses fuel except `decimal`, which has one step for each unit of its number.
--
-- Not modelled: FastAPI, the lifespan of the application and its loop of metrics; the heartbeat task
-- of a worker, whose update is a step of the queue; signal handlers and sleeps; the semaphore that
-- limits the calls of models in flight; HTTP, logging, tracing, the migration runner, the scripts
-- and the tests.
pub mod Prelude
pub mod Effects
pub mod World
pub mod Access
pub mod Webhook
pub mod Config
pub mod Schema
pub mod Pool
pub mod Queue
pub mod Ai
pub mod Github
pub mod Graph
pub mod Worker
pub mod System
