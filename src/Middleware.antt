-- ===== src/Middleware.antt =====
-- crates/embyr-server/src/middleware: what stands before a request's handler.
pub mod RateLimit
pub mod RestGate
