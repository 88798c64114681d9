-- ===== src/Tests.antt =====
-- The theorems at concrete inputs.
mod Fixtures
mod Queues
mod Pushes
mod Storages
mod Workers
mod Entries
mod Logs
mod Catalogs
mod Deliveries
mod Segments
