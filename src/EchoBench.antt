-- ===== src/EchoBench.antt =====
-- bench/echo_bench.cc: the load generator beside the server. Its parts are the text helpers, the
-- options, the requests that it sends, the responses that it reads, and the connections.
pub mod Helpers
pub mod Connections
pub mod Payload
pub mod Options
pub mod Requests
pub mod Responses
mod Tests
