-- ===== src/Http.antt =====
-- The HTTP side of the server: messages, the request parser and what answers a request.
mod Tests
pub mod Message
pub mod Chars
pub mod Parser
pub mod Reply
pub mod Url
pub mod Handler
pub mod Connection
pub mod Session
