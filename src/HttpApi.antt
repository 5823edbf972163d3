-- ===== src/HttpApi.antt =====
-- internal/httpapi: the pass over the JSON tokens of a request body, and the handlers.
pub mod Json
pub mod Body
pub mod Handler
pub mod Samples
mod Tests
