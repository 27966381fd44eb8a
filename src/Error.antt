-- ===== src/Error.antt =====
-- program/src/error.rs, and the program errors that the handlers return.
pub mod Codes
use alpenglow_vote.Base.{ℕ}

pub data VoteError : Type 0 where
  active_vote_account_close : VoteError
  commission_update_too_late : VoteError
  invalid_instruction : VoteError
  invalid_authorize_type : VoteError
  missing_epoch_schedule_sysvar : VoteError
  missing_slot_hashes_sysvar : VoteError
  replay_bank_hash_mismatch : VoteError
  skip_slot_present : VoteError
  skip_slot_exceeds_current_slot : VoteError
  slot_hashes_missing_key : VoteError
  version_mismatch : VoteError

-- `solana_program::program_error::ProgramError`: the variants that the source names, `Custom`, and
-- one constructor for every other variant, which only code outside the repository returns.
pub data ProgramError : Type 0 where
  custom : ℕ → ProgramError
  invalid_argument : ProgramError
  invalid_instruction_data : ProgramError
  invalid_account_data : ProgramError
  insufficient_funds : ProgramError
  missing_required_signature : ProgramError
  account_already_initialized : ProgramError
  account_borrow_failed : ProgramError
  invalid_account_owner : ProgramError
  arithmetic_overflow : ProgramError
  other : ℕ → ProgramError

-- `e as u32`: the position of the variant.
abbrev pub code : VoteError → ℕ
code active_vote_account_close = 0
code commission_update_too_late = 1
code invalid_instruction = 2
code invalid_authorize_type = 3
code missing_epoch_schedule_sysvar = 4
code missing_slot_hashes_sysvar = 5
code replay_bank_hash_mismatch = 6
code skip_slot_present = 7
code skip_slot_exceeds_current_slot = 8
code slot_hashes_missing_key = 9
code version_mismatch = 10

-- `impl From<VoteError> for ProgramError`
abbrev pub from_vote_error : VoteError → ProgramError
from_vote_error e = custom (code e)
