-- ===== src/Tests.antt =====
-- Runs of the code in a small world, and the theorems at concrete data.
mod World
mod Cluster
mod Data
mod Reconciling
mod Writing
mod Serving
mod Copies
mod Factories
mod Clients
mod Wiring
mod Encoding
mod Versioned
mod Held
mod Stored
mod Persisting
mod Injecting
mod Converging
mod Histories
mod Persistence
mod Waiting
