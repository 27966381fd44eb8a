-- ===== src/Lib.antt =====
-- The Alpenglow vote program: a Solana program that keeps a vote account for each validator, with
-- its authorities, commission and vote credits, and the client code that builds and reads its
-- instructions. This library models program/src and proves what its parts promise.
--
-- How the parts interact. A client builds an `Instruction` (program/src/instruction.rs, vote.rs): a
-- number, the data of a fixed layout, and sometimes a seed. The runtime hands the program a list of
-- accounts and the bytes. `process_instruction` (processor.rs) decodes the number, takes the vote
-- account, checks its owner, and in one of thirteen arms reads the sysvars, the signers and the
-- data, then calls a handler of accounting.rs or vote_processor.rs. The handler borrows the vote
-- account's data, casts it to a `VoteState` (state.rs) and changes it in place, or moves lamports.
--
-- Which file models which part:
--   Error               program/src/error.rs; Error/Codes its numbers and `DecodeError`
--   Exec                `Result` with panics, and code over a state: `Exec S A`
--   Word                u8 and u64: ranges, saturating and checked arithmetic
--   Pod                 bytemuck's `Pod`: codecs of fixed size, with their laws
--   Records             `AuthorizedVoter` and `EpochCredit` of program/src/accounting.rs, with
--                       Records/Getters
--   InstructionData     the instruction data of program/src/instruction.rs, vote_processor.rs
--   State               `VoteState` of program/src/state.rs; State/Codec its bytes for clients,
--                       State/SharedAccount accounts made for clients, State/Timestamp
--                       `BlockTimestamp`, State/Getters what clients read
--   Platform            sysvars, accounts, and every operation of the SDK, bytemuck and spl-pod
--                       that the program calls, as the parameter `Platform` of the model
--   Account             accounts as cells in a store with the `RefCell` borrows of their data and
--                       lamports, also the short ones of `AccountInfo::lamports` and `data_len`, and
--                       `set_vote_account_state` of program/src/state.rs
--   VoteProcessor       program/src/vote_processor.rs: `X_state` is the part of `process_X_vote`
--                       below the cast, `earn` what `set_credits` does to the credits;
--                       VoteProcessor/UnitTests its unit tests, as functions into Bool
--   Accounting          program/src/accounting.rs: `X_state` is the part of `X` below the cast;
--                       `close`, `keep_rent_exempt`, `move_lamports` are the blocks of `withdraw`
--   Instruction         program/src/instruction.rs: numbers, encoders, decoders
--   Builders            program/src/instruction.rs: the instruction builders
--   Vote                program/src/vote.rs; Vote/Wire and Vote/Kinds votes as instructions
--   Certificate         program/src/certificate.rs
--   BlsMessage          program/src/bls_message.rs
--   Processor           program/src/processor.rs, one definition per arm
--   Client              what a client asks for: the builders with the handlers they stand for
--   Spec                the contract of one instruction, on the `VoteState` alone
--   Examples            a concrete platform, with runs of the program and the theorems on it
-- The children of a module prove what it promises. Of Processor, Refines has the rules by which the
-- arms are shown to meet the contract of Spec, Success, Lamports, Idle and Panics those for
-- lamports, borrows and panics. Chain is what happens over time: calls of the program, and what
-- other programs do to the store in between, as far as the runtime lets them. Trace follows one
-- account through it, Custody and Supply its lamports and those of all accounts, and Ledger has the
-- theorems on any such events: that all accounts go on to hold vote states (Guarantees), that each
-- follows the contract of Spec, driven by the calls made (Refinement), that no call panics (Panics),
-- what becomes of the voter and the credits (Lifetime), and what withdrawer and voter can always do
-- (Access). Account/Local has the rules for code that reads and writes only some accounts, Locality applies them to each arm, with Footprint for what these are, Schedule and
-- Reorder to the order of instructions, Writes to the metas of the builders. Requests, EndToEnd,
-- Voting and Opening run what a client builds.
--
-- Conventions. Keys, hashes and BLS keys are numbers below 2 ^ 256 (BLS keys below a bound of the
-- platform), bytes are numbers below 256. `panic` is a result beside `ok` and `err`; a handler that
-- fails after a change keeps the change. A borrow is released where Rust drops its guard, also on
-- the error paths. The same account passed twice is two `AccountInfo`s with one cell. No loop of the
-- code needs fuel: all definitions are structural.
--
-- What is not modelled: the layout of `repr(C)` structs (codecs with laws stand for it), the
-- runtime's own checks after an instruction (rent, who may write), the system program's
-- `create_account`, entrypoint.rs and lib.rs (declarations and a macro of the SDK), generate-so,
-- benches, scripts, and the integration tests, which run on a simulated runtime. The BLS
-- signatures, bincode and the SDK's `AccountSharedData` are parameters. A failed call is rolled
-- back (`attempt` of Processor/Schedule), and the accounts of the program are a fixed set: none is
-- made for it while events go on.
pub mod Base
pub mod Word
pub mod Error
pub mod Exec
pub mod Pod
pub mod Records
pub mod InstructionData
pub mod State
pub mod Platform
pub mod Account
pub mod VoteProcessor
pub mod Accounting
pub mod Instruction
pub mod Vote
pub mod Certificate
pub mod BlsMessage
pub mod Builders
pub mod Client
pub mod Processor
pub mod Spec
pub mod Examples
