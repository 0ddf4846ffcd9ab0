-- ===== src/Lib.antt =====
-- Verification library for the labs under modules/: the parts that carry state and rules.
--
-- The repository is a collection of labs in Python. Each lab is a file with a few functions and
-- classes, followed by experiments that call them and print tables. Modelled are the functions and
-- classes; the experiments, sockets, threads and files are not.
--
-- Resilience: modules/service-lab/resilience_lab.py. Breaker is the class Breaker (`allow`, and
-- `record` as `record_outcome`), RetryBudget the class Budget, Client the function `client` over
-- both, Middle the servers Upstream and Middle that retry through layers, Limiter the three rate
-- limiters and `worst_second`. A request's answer, the readings of the clock and the random draws
-- are arguments. Left out are `storm`, which runs threads, and the sleep between a server's
-- attempts.
--
-- Jobs: modules/service-lab/jobs_lab.py over the tables of modules/service-lab/service.py. A
-- connection has the committed database and the one that its transaction sees. Queue has `enqueue`,
-- `claim` and `complete`, Ingest has `ingest`, `relay` and `counts`. One operation is one step, as
-- its transaction is; SQLite's own locking is not modelled.
--
-- Cache: the class Cache of modules/service-lab/cache_lab.py, as one thread uses it, with both ways
-- to evict. The loop that evicts takes as many rounds as there are keys, which is enough, since
-- each round drops one.
--
-- Auth: modules/service-lab/auth_lab.py, the token's `verify` and the endpoints of the class API,
-- with and without the tenant in the query (`fixed`). A route arrives split; the signature, LIKE
-- and the model's answer are parameters.
--
-- Retry: the policies `naive` and `classified` of modules/model-interface-lab/retry_lab.py, and its
-- class EventTable; the provider is a parameter, a function from the number of a call to its error
-- or none.
--
-- Releases: `share_on`, `releases_on` and `release_for` of modules/ops-lab/ops.py, for any list of
-- releases.
--
-- Process: the function `process` of modules/ops-lab/ops.py, one request through its attempts, its
-- parse and its validation, with the draws and the provider's answer as parameters. Durations are
-- in ticks of 0.0001 ms, and what is emitted is rounded to 0.01 ms.
--
-- Traffic: the function `traffic` of modules/ops-lab/ops.py, a day's requests through Releases and
-- Process.
--
-- Idempotency: the class API of modules/service-lab/idempotency_lab.py. A request is a state
-- machine with one step for each transaction, and a schedule says whose step comes next.
--
-- Blobs: the class Blobs of modules/service-lab/storage_lab.py, where a put may crash after any
-- number of bytes. Transactions: the repositories of modules/service-lab/tx_lab.py and the loop
-- over both.
--
-- Chunked: the endpoints `records`, `work_stream` and `firehose` of
-- modules/service-lab/http_lab.py, over a connection that may break at any write.
--
-- Watermark: `run_pipeline` of modules/store-lab/pipeline_lab.py with its four strategies.
--
-- Monitor: `cusum` of modules/ops-lab/ops.py. DeadLetters: `simulate` of
-- modules/ops-lab/dlq_lab.py. Its loop has 41 rounds for each item, as many as the longest policy
-- has attempts, and without a worker it raises. Batching: `simulate` of
-- modules/serving-lab/batching_lab.py. Its loop has two rounds for each request and each token that
-- it may take, and one more, which is enough.
--
-- Streams: `stream` of modules/model-interface-lab/provider.py and `extract_streaming` of
-- stream_lab.py. Schema: `validate` of modules/model-interface-lab/task.py with its schema.
--
-- Agent: modules/agent-workflow-lab. Agent.antt has the budget, the trace, the store and the
-- approvals of agent.py, Agent/Steps its steps, Agent/Pipeline and Agent/Loop the functions
-- `run_pipeline` and `run_agent` of loop_lab.py, Agent/Resume the function `run` of
-- resilience_lab.py with the class Checkpoint. The record World holds what the steps take from
-- elsewhere: the model's answers, the validator, the passages, the clock. A step is an action that
-- changes the budget and the rows, and writes the trace. The count of unvalidated writes outlives a
-- stop by the budget, as the global list of the source does. The loop has 12 rounds, MAX_STEPS of
-- the source; its planner is a parameter.
--
-- Time is counted in natural numbers of ticks, money in units of 1e-8 dollars, a ratio as a
-- fraction of natural numbers. Of the rounding of floating-point numbers only that of the spans and
-- the latency in Process is modelled. Fuel is the source's own bound wherever the source has one.
--
-- Retrieval: modules/zh-retrieval-lab. Analyzers has analyzers.py with its dictionary, Index the
-- class Index and `rank` of retrievers.py, Freshness the class Store of freshness_lab.py with
-- `unreachable` and `hard_delete`, Span and Rerank the second stage of rerank_lab.py. The corpus of
-- the source and the documents of its index are one dictionary, as they are there. The
-- floating-point operations are a record of functions, Numbers.Num, of which nothing is assumed.
--
-- Builds: `resolve` of modules/ops-lab/build_lab.py. Its loop has a round for each pin and for each
-- dependency, which is enough, since a name is expanded once.
--
-- Shapes: `broadcast` and `matmul_shape` of modules/stats-lab/shapes_lab.py.
--
-- Secrets: `_redact`, `loose_resolve` and `strict_resolve` of modules/ops-lab/secrets_lab.py;
-- `str.lower`, `int` and `float` are parameters. Leakage: the splits of
-- modules/stats-lab/leakage_lab.py; the seeded shuffle is a parameter.
--
-- Not modelled: the rest of the labs on services, operations, the model's interface, stores,
-- retrieval, evaluation sets, serving and statistics, which print tables, run threads or compute
-- with floating point.
--
-- Prelude has the shared names, tests, lists and dictionaries; Tests the runs on concrete inputs.
pub mod Agent
pub mod Auth
pub mod Batching
pub mod Blobs
pub mod Builds
pub mod Cache
pub mod Chunked
pub mod DeadLetters
pub mod Idempotency
pub mod Jobs
pub mod Leakage
pub mod Monitor
pub mod Prelude
pub mod Process
pub mod Releases
pub mod Resilience
pub mod Retrieval
pub mod Retry
pub mod Schema
pub mod Secrets
pub mod Shapes
pub mod Streams
pub mod Tests
pub mod Traffic
pub mod Transactions
pub mod Watermark
