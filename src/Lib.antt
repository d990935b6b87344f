-- ===== src/Lib.antt =====
-- A model of the backend in packages/backend/src/insurance_platform, with theorems about it.
--
-- The program reviews insurance claims. Users of a tenant sign in, upload documents to claims, ask
-- questions that are answered from retrieved passages, and run evidence-review workflows, which end in
-- a human review or complete by themselves. All state is rows of a relational database.
--
-- How the model is built. A request handler is a function from a database session to a result and a
-- session (Prelude/Exec): the tables that the transaction sees and those last committed (Store). An
-- exception is an error result, and the session keeps what was written before it, as in SQLAlchemy.
-- The clock and fresh identifiers are an argument (`Env`), and a UUID is a number. Text functions of
-- Python's standard library are a record of parameters (Prelude/Python). A relation that a query loads
-- with its row is a field of the row.
--
-- Which file models which part:
-- - Domain: domain/enums.py and domain/entities.py.
-- - Config: the settings of config.py and `validate_environment_safety`.
-- - Security/Authorization: security/authorization.py. Security/Sessions: security/sessions.py, with
--   Argon2 and the token as parameters. Security/RateLimit: `InMemoryRateLimiter` of
--   infrastructure/rate_limit.py. Security/Oidc: the exchange of security/oidc.py, over an identity server
--   that is a record of parameters.
-- - Store: the rows of infrastructure/models.py, the session, and the queries of `ClaimRepository` and
--   `DocumentRepository` in infrastructure/repositories.py that other parts use; in Users and Reviews
--   those of the other repositories.
-- - Documents/Conflicts: the conflict detection of `DocumentRepository`. Documents/Upload: the checks of
--   documents/ingestion.py on an upload, with `pathlib` and the UTF-8 decoder as parameters.
--   Documents/Classification and Documents/Extraction: documents/classification.py, and
--   documents/extraction.py, ocr.py and facts.py. Documents/Ingestion is the `try` of `process`, cut at
--   its commits, and Documents/Processing `process` and `ingest`. The object storage is a pair of
--   functions that may raise; the PDF reader, the regular expressions and hashing are parameters.
-- - ModelAssistance: model_assistance/. Validation is the citations that a brief may use and `_validate`,
--   Generation the loop of attempts, Service the reads and the view, Creation `create`. A model provider
--   is a function of the attempt's number and the request, so it may answer each attempt differently;
--   Provider is the deterministic one and Bedrock the adapter to AWS, whose client is an argument. JSON
--   and its schema validation are a record of parameters (`ModelLibrary`).
-- - Retrieval/Types: the results of retrieval/service.py. Retrieval/Chunking: retrieval/chunking.py.
--   Retrieval/Indexing: retrieval/indexing.py, with the chunker, the embedding and fresh identifiers as
--   arguments. Retrieval/Search: retrieval/search.py and `retrieve`; a score is of an abstract type, and
--   the two scores of a chunk, their order and the fusion of two ranks are arguments.
--   Retrieval/Answering: `GroundedAnswerService.answer` and the generation, over a retrieval and a
--   choice of a sentence that are arguments. The workflow takes the function `answer` as an argument,
--   of which the trail theorems assume only that it leaves the workflow tables alone.
-- - Workflow/Graph: the nodes of workflows/engine.py. LangGraph is a line of nodes here, so the graph is
--   the list of them. Workflow/Service: workflows/service.py, with the streaming loop in Drive, `start`,
--   `get`, `latest` and `history` in Operations, and `review`, `cancel` and `retry` in Actions.
-- - Workflow/Trail: the audit trail of a workflow through each operation. Workflow/Guards:
--   what reviews and closed workflows refuse, and in Once what follows a review. Workflow/Starts: repeated starts and the latest workflow.
--   Workflow/Cancellation: what a cancellation leaves.
-- - Application: application/services.py, whose views keep the rows that they show.
-- - Delivery: the state of the application, which is a session and the counters of the rate limiter, and
--   the errors with their statuses in Types; the routes of delivery/routes.py in Routes, each a function
--   of the services and the actor; the sign-in routes and delivery/dependencies.py in Signin; the CSRF
--   check of delivery/middleware.py in Middleware; infrastructure/queue.py, delivery/worker.py and
--   the job routes in Jobs, over an interface of queues that the one in memory and the one in Redis
--   fill. The commands of the Redis server and JSON are records of parameters with laws (Jobs/Laws).
--
-- The loops recurse on their lists; only that of the chunker has fuel, the length of the page, since
-- each window starts after the one before it, and the worker's loop, which has no end, runs for a
-- number of rounds. A request runs alone in the model: what another request may do in between is in
-- the arguments, since an operation on a workflow takes the row that was loaded before, which need not
-- be that of the database, and the conditional update of `review` is modelled as the query it is.
-- An operation writes the whole row of its workflow where SQLAlchemy writes the columns that changed,
-- and the unique constraints of the tables are not stated: both matter only between two requests at
-- once. Scores and timings in floating point are left out. Not modelled: the parsing and
-- serialisation of HTTP, the download of an original document, the object storage itself, the
-- limiter of Redis and the expiry of its results, the tokens of local development, observability,
-- evaluation and seeds.
pub mod Prelude
pub mod Domain
pub mod Config
pub mod Security
pub mod Store
pub mod ModelAssistance
pub mod Retrieval
pub mod Documents
pub mod Workflow
pub mod Delivery
pub mod Application
