-- ===== src/Http.antt =====
-- The HTTP server of myserver: requests, their incremental parser, responses, and the server that
-- joins them to a connection.
pub mod Request
pub mod Context
pub mod Response
pub mod Server
mod Tests
