-- ===== src/Samples/Witnesses.antt =====
-- The theorems with hypotheses, each at a concrete input.
mod Paths
mod Databases
mod Ledgers
mod Rounds
mod Storage
mod Trees
mod Batches
mod Byzgen
mod Clients
mod Readers
mod Runs
