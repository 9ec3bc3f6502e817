-- ===== src/Lib.antt =====
-- Verification of the AI Runtime server: the core that turns an authenticated generation request into
-- a response, with its rate limit, idempotency, response cache, policy, routing, retries, failover,
-- usage records and audit events.
--
-- How the parts interact: `CreateResponse` (src/ai_runtime/application/responses/create_response.py)
-- asks the rate limiter, claims the Idempotency-Key, looks into the response cache, and runs the
-- provider executor with the organization's policy as a hook before each route; then it writes a
-- usage record, fills the cache, completes the key and writes an audit event.
--
-- Files, with the code that each is about (below src/ai_runtime/):
--   Prelude, Prelude/*      shared names, lists, and Python's text operations
--   Errors, Exec, Exec/Keeps  the exceptions as one type; methods with effects that may raise
--   Json                    JSON values and the `json` module as an interface
--   Generation, Generation/Validity  domain/generation.py
--   Routing, Routing/*      domain/routing.py, application/routing/model_router.py
--   Executor, Executor/*    application/resilience/provider_executor.py: `execute` in Executor,
--                           `stream` in Executor/Streams
--   Redis                   the Redis commands that the adapters use, with lost and late replies
--   Redis/Idempotency, Redis/Cache, Redis/Limiter  infrastructure/redis/*.py
--   Calendar, Policy, Policy/*  domain/organization_policy.py, application/policy/
--   Database, Database/Reads  the repositories that a request reads and writes
--   Usage, Usage/Costs      domain/usage.py, infrastructure/pricing/static_cost_estimator.py
--   Audit                   domain/audit.py
--   Responses, Responses/*  create_response.py and cache_fingerprint.py: `execute` in
--                           Responses/Create, `stream` in Responses/Deliver, what is stored in
--                           Responses/Payload
--   Tenants, Tenants/*      domain/organization.py, domain/api_key.py, application/organizations/,
--                           application/api_keys/, application/auth/ and their repositories
--   Context, Context/*      application/context/build_context.py, domain/context.py and
--                           infrastructure/tokens/heuristic_token_counter.py
--   Prompts, Prompts/*      domain/prompt.py, application/prompts/ and their repository
--   Providers, Providers/*  providers/sse.py and the adapters of providers/openai, anthropic and
--                           gemini: the request in Body, the replies and the stream in the vendor's
--                           file, what they share in Exchange, their registration in Vendors
--   Api, Api/*              api/errors.py, exception_handlers.py, schemas/ and the server-sent events
--                           of routes/responses.py
--   Sdk, Sdk/*              the client library below sdk/python/: errors.py, models.py, _sse.py and
--                           the reading of responses in client.py
--   Examples, Examples/*    the theorems at concrete inputs
--
-- Conventions: a UUID is a number; a time is a calendar time or its microseconds; prices are whole
-- units of 0.00000001 USD; a float is a fraction of a power of two, an infinity or NaN; delays are
-- milliseconds; the arithmetic of the Lua script is a parameter. A query of the database and a command
-- of Redis each fail by a schedule that the state holds, so a run of the model covers any pattern of
-- failures. The retry loops run on fuel `max_retries + 1`, one unit for each call that they may make.
-- SHA-256, argon2, `json.dumps` and `json.loads` are parameters. Times lie before December 9999, where
-- Python's calendar ends.
--
-- httpx, pydantic and Starlette are interfaces or described where they are used.
--
-- Not modelled: the request schemas and the other routes of the HTTP layer, logs, spans and time
-- measurements, the TypeScript and other SDKs, the asynchronous twin of the Python client, migrations,
-- and RAG, MCP servers and embeddings.
pub mod Prelude
pub mod Errors
pub mod Exec
pub mod Json
pub mod Generation
pub mod Routing
pub mod Executor
pub mod Redis
pub mod Calendar
pub mod Tenants
pub mod Database
pub mod Usage
pub mod Policy
pub mod Audit
pub mod Responses
pub mod Examples
pub mod Context
pub mod Api
pub mod Sdk
pub mod Prompts
pub mod Providers
