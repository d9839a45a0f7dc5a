-- ===== src/Tests.antt =====
-- Runs of the model on concrete inputs, for groove/proxy, and the theorems at these inputs.
mod Caches
mod Stored
mod Tapes
mod Routing
mod Control
mod Serving
mod Exchanges
mod Starting
mod Keys
mod Locking
mod Overlap
mod Failing
mod Taping
mod Logging
