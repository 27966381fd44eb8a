-- ===== src/Examples.antt =====
-- The theorems at concrete inputs, and runs of the program on concrete accounts.
pub mod Codecs
pub mod Layouts
pub mod Sample
pub mod Accounts
mod Runs
mod Witnesses
mod VoteWitnesses
mod WireWitnesses
mod ProcessorWitnesses
mod RequestWitnesses
mod OrderWitnesses
mod OpeningWitnesses
mod Events
mod LifetimeWitnesses
mod LedgerWitnesses
mod AccountWitnesses
