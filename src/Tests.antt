-- ===== src/Tests.antt =====
-- The theorems at concrete inputs.
mod Catalogs
mod Coverages
mod Paginations
mod Syncs
mod Times
mod Identities
mod Listings
mod Lives
mod Observations
