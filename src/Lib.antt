-- ===== src/Lib.antt =====
-- Verification of the back end of Astra: the compression core (astra/) and the product's tables,
-- handlers and worker (app/), with the reporter of its client (clients/python/).
--
-- Parts. The research core finds a compressed model: the analyzer reads
-- the operators of a graph and orders them, `get_action_space` says what may be done to an
-- operator, `ParetoSearch` samples configurations from these spaces and keeps the trials that no other
-- dominates, and `guarantee_compress` goes down a ladder of candidates until one keeps the fidelity
-- floor. The product keeps tables: handlers start an ingestion, complete it, deploy a model and hand
-- out keys; a worker runs the pipeline and commits its outcome; two reconcilers repair rows. Users
-- sign up, log in by password or by Google, and act under a session token, which a change of the
-- password revokes; the operators of a model are laid out for the view of its architecture. A deployed
-- model reports to the product: the reporter of the SDK queues facts, spools them in batches and sends
-- a batch until the server has answered for it; the server enters each batch in a ledger, which the
-- retention purges; the drift monitor reads the facts, refreshes live metrics and raises alerts.
--
-- Files.
--   Graph        astra/graph/onnx_analyzer.py
--   Compression  astra/core/compression_actions.py
--   Search       astra/search/pareto_search.py
--   Ladder       astra/core/guarantee.py
--   Store        app/dbmodels.py, with the queries and updates of SQLModel
--   Http         HTTPException and handlers as functions of the tables
--   Repositories app/repositories.py
--   Models       app/routers/models.py
--   Jobs         app/services/jobs.py
--   ApiKeys      app/services/apikeys.py
--   Deployments  app/routers/deployments.py; `is_executable` of app/services/formats.py; `_resolve`
--                of app/routers/client_telemetry.py
--   Telemetry    app/services/client_telemetry.py, app/schemas/client_telemetry.py,
--                app/services/retention.py; `telemetry_batch` of app/routers/client_telemetry.py
--   Sdk          clients/python/astra_sdk/telemetry.py, the reporter of the SDK, and
--                clients/python/astra_sdk/_http.py, its session
--   Monitor      app/services/drift_monitor.py, app/services/fleet.py
--   Aggregates   app/services/telemetry_agg.py
--   Architecture app/services/mappers/layout.py
--   Auth         app/auth/security.py, app/auth/dependencies.py, app/auth/google.py,
--                app/routers/auth.py; Sessions holds their step relation and its laws
--   Lifecycle    every operation of models, jobs, keys and deployments that writes tables as one step
--                relation
--   Prelude      tests on numbers, lists, texts, signed differences
--   Tests        concrete inputs
--
-- Conventions. The tables are one record of lists, the newest row first; a handler is a function from
-- tables to tables or an error, and takes effect at its commit. An identifier is a number, since it is
-- only made fresh and compared; a time stamp is its text. An accuracy is in hundredths of a point and a
-- pruning ratio in tenths, so that the model has no floating point. Every loop of the modelled code is
-- structural but for two: the sort of the operators runs on fuel, the number of names, of which each
-- round uses one, and no name is queued twice; and the side of a grid is searched upwards with the
-- number of its members as fuel, whose square is large enough. The engine, the clock, the hash,
-- the random source, Optuna's answers, bcrypt, PyJWT, the validator of addresses and the endpoints of
-- Google are parameters; the laws of bcrypt and PyJWT that a session relies on are fields of
-- `Auth.Tokens.Crypto`. The accounts are a list of their own.
--
-- Not modelled: the numerical code (sensitivity, validation, graph edits), storage, the queue, the
-- limits of rates and the read-only views, which are I/O or calls of third-party code; the limits of a
-- schema on single texts and numbers; the attributes of cookies; and the floating point of the monitor and of the dashboard, whose percentiles, rates and
-- distances of distributions are parameters. A latency is a whole number. A deployment's endpoint is a
-- text that nothing reads, and has no field.
-- Simplified. As handlers, `create_deployment` and `delete_deployment` are functions with one effect; the
-- source commits rows, keys and the flag of the model one after the other. Lifecycle has the commits of
-- rows and keys as steps of their own too, so that other steps may come between; deleting a row and
-- taking the flag off its model stay one step. Lower case and blanks are those of ASCII; the operators
-- of one evaluation of the search have different names, since the source keys the configurations by
-- name. While a function of the reporter runs, the file system may fail to list, to measure, to read and
-- to delete: `Sdk.Disk` says which of these fail.
pub mod Prelude
pub mod Compression
pub mod Search
pub mod Ladder
pub mod Store
pub mod Graph
pub mod Http
pub mod Repositories
pub mod Models
pub mod Jobs
pub mod ApiKeys
pub mod Deployments
pub mod Telemetry
pub mod Sdk
pub mod Monitor
pub mod Aggregates
pub mod Lifecycle
pub mod Auth
pub mod Architecture
mod Tests
