-- ===== src/Frontend.antt =====
-- miniweb_frontend.c: the server that takes connections and hands them to its worker thread.
pub mod Queue
pub mod Worker
mod Tests
