-- ===== src/Examples.antt =====
-- The theorems on concrete inputs.
mod Pools
mod Requests
mod Searches
mod Crawls
mod Backends
mod Parsers
mod Solvers
