-- ===== src/Http.antt =====
-- internal/interface/http: requests to the services, and their answers.
pub mod Paths
pub mod Answers
pub mod Requests
pub mod Server
pub mod Routing
pub mod Streams
pub mod Middleware
mod Tests
mod StreamTests
