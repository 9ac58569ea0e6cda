-- ===== src/Web.antt =====
-- The web server's cache, connection queue and workers: webserver/server_thread.c.
pub mod State
pub mod Lists
pub mod Cache
pub mod Matches
pub mod Chains
pub mod Consistent
pub mod Reads
pub mod Evict
pub mod Insert
pub mod Add
pub mod Refine
pub mod Policy
pub mod Lookup
pub mod Limits
pub mod Connections
pub mod Pool
pub mod Serving
pub mod Request
pub mod Handler
pub mod Unrelated
pub mod Serve
pub mod Answers
pub mod Requests
pub mod Races
pub mod Destroy
pub mod Teardown
