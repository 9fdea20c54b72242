-- ===== src/Samples.antt =====
-- The parameters of the model at work: small instances of the cryptography, the database, the
-- transports and the ledger, with the laws that the theorems ask of them.
pub mod Suite
pub mod Database
pub mod Services
pub mod Encoding
mod Witnesses
