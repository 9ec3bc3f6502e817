-- ===== src/Sdk.antt =====
-- src/sdk/python/src/ai_runtime_sdk/: the Python client of the server's API.
pub mod Errors
pub mod Failures
pub mod Models
pub mod Sse
pub mod Streams
