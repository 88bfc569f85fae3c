-- ===== src/Http.antt =====
-- src/http: requests, responses and the request parsers.
pub mod Text
pub mod Request
pub mod Response
pub mod Message
pub mod Parser
