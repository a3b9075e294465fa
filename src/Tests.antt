-- ===== src/Tests.antt =====
-- The theorems and the code on concrete inputs.
mod Crypto
mod Limits
mod Pages
mod Library
mod Requests
mod Like
mod Catalog
mod Feeds
mod Caches
mod Server
mod Paths
mod Names
mod Gate
