-- ===== src/Api.antt =====
-- src/ai_runtime/api/: the HTTP layer of the server. FastAPI, Starlette and pydantic are not part of
-- the repository; what they do with the code's values is said at each definition.
pub mod Http
pub mod Codes
pub mod Errors
pub mod Schemas
pub mod Streaming
pub mod Access
