-- ===== src/Handler.antt =====
-- inc/handler.h and inc/exception_interface.h: the chain of handlers, and what `Handle` does around the
-- work of each.
pub mod Chain
pub mod Jobs
pub mod Kept
pub mod Runs
pub mod RoundTrip
pub mod Errors
