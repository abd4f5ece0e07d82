-- ===== src/Api.antt =====
-- internal/api: the requests and their validation, the responses, the handlers of the endpoints, the
-- middleware and the routes.
pub mod Requests
pub mod Validity
pub mod Responses
pub mod Web
pub mod Handlers
pub mod Queries
pub mod Batch
pub mod Middleware
pub mod Routes
