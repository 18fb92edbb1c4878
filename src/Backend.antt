-- ===== src/Backend.antt =====
-- src/backend.cpp: a request of the front end chooses and runs the handlers.
pub mod Json
pub mod Files
pub mod Requests
pub mod Listing
pub mod Kept
pub mod Copy
pub mod Listed
pub mod Decode
pub mod Encode
pub mod RoundTrip
