-- ===== src/Server.antt =====
-- src/server.h and src/server.cpp: the HTTP server that takes requests for signatures, and the workers
-- that carry them out.
pub mod Init
pub mod Headers
pub mod Request
pub mod Worker
pub mod Service
pub mod Auth
pub mod Start
pub mod Tests
