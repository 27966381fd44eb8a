-- ===== src/Records.antt =====
-- The records inside a vote state: `AuthorizedVoter` and `EpochCredit` of program/src/accounting.rs,
-- with their constructors, getters and setters. A `PodU64` holds the number that `u64::from` reads.
-- Public keys and hashes are 32-byte strings that the program only copies and compares: numbers
-- below 2 ^ 256.
pub mod AuthorizedVoter
pub mod EpochCredit
pub mod Getters
use alpenglow_vote.Base.{ℕ, ◌^◌, ◌<◌}

abbrev pub Pubkey : Type 0
Pubkey = ℕ

abbrev pub Hash : Type 0
Hash = ℕ

abbrev pub BlsPubkey : Type 0
BlsPubkey = ℕ

abbrev pub Slot : Type 0
Slot = ℕ

abbrev pub Epoch : Type 0
Epoch = ℕ

abbrev pub IsBytes32 : ℕ → Type 0
IsBytes32 k = k < 2 ^ 256
