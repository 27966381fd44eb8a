-- ===== src/Processor/Locality.antt =====
-- The accounts that an instruction of program/src/processor.rs reads and writes.
pub mod Steps
pub mod Arms
use alpenglow_vote.Base.{ℕ, not, length, ◌≡◌, ◌∙◌, sym, ap, List, [], ◌∷◌, All, arith, ◌/=◌}
use mathlib.Core.Path.{subst}
use alpenglow_vote.Error.{
  invalid_account_owner, invalid_authorize_type, from_vote_error, missing_required_signature,
  invalid_account_data, account_already_initialized, insufficient_funds, invalid_argument,
  missing_epoch_schedule_sysvar, missing_slot_hashes_sysvar,
}
use alpenglow_vote.Exec.{ok, Exec, lift, ok_or, fail_if, ◌>>=◌, ◌>>◌}
use alpenglow_vote.Pod.{Bytes}
use alpenglow_vote.Records.{Pubkey}
use alpenglow_vote.InstructionData.{authority_type_from_u8, InitializeAccountInstructionData}
use alpenglow_vote.Platform.{Platform, AccountInfo, Sysvars, Clock}
use alpenglow_vote.State.{new, is_initialized}
use alpenglow_vote.Account.{Store, cast}
use alpenglow_vote.Account.Local.{
  IsLocal, lift-IsLocal, ok_or-IsLocal, fail_if-IsLocal, bind-IsLocal, lift-bind-IsLocal,
  ok_or-bind-IsLocal, fail_if-bind-IsLocal, gets-IsLocal,
}
use alpenglow_vote.Account.Local.Borrows.{borrow_mut_data-IsLocal, borrow_data-IsLocal}
use alpenglow_vote.Accounting.{authorize}
use alpenglow_vote.Accounting.Local.{
  authorize-IsLocal, update_validator_identity-IsLocal, update_commission-IsLocal, withdraw-IsLocal,
  set_vote_account_state-IsLocal,
}
use alpenglow_vote.VoteProcessor.{
  map_err, process_notarization_vote, process_finalization_vote, process_skip_vote,
}
use alpenglow_vote.Instruction.{
  VoteInstruction, decode_instruction_type, decode_instruction_data,
  decode_instruction_data_with_seed,
}
use alpenglow_vote.Processor.Safety.{ok_injective}
use alpenglow_vote.Processor.{
  initialize_account, next_signer, dispatch, process_instruction, process_initialize_account,
  process_authorize, process_authorize_checked, process_authorize_with_seed,
  process_authorize_checked_with_seed, process_withdraw, process_update_validator_identity,
  process_update_commission, process_notarize, process_finalize, process_skip,
}
use alpenglow_vote.Processor.Footprint.{footprint, footprint_of}
use alpenglow_vote.Processor.Locality.Steps.{signer_then, initialize_account-IsLocal, taken_first}
use alpenglow_vote.Processor.Locality.Arms.{dispatch-IsLocal}

-- An instruction, whether it succeeds, fails or panics, reads and writes only its vote account and, if
-- it is a withdrawal, the recipient: on two stores in which these are the same it has the same result
-- and leaves them the same, and it leaves all other accounts as they were.
pub process_instruction-IsLocal :
    (P : Platform) (C : ℕ → Type 0) (sysvars : Sysvars) (program_id : Pubkey)
    (accounts : List AccountInfo) (input : Bytes)
    → All C (footprint accounts input)
    → IsLocal C (process_instruction P sysvars program_id accounts input)
unfolding process_instruction footprint
process_instruction-IsLocal P C sysvars program_id accounts input given =
    lift-bind-IsLocal C (decode_instruction_type input) _ λ instruction decoded.
      let within = subst (λ r. All C (footprint_of r accounts)) decoded given in
      lift-bind-IsLocal C (P.next_account_info accounts) _ λ (account, iter) e.
        let (own, paid) = taken_first P C instruction accounts iter account within e in
        fail_if-bind-IsLocal C (account.owner /= program_id) invalid_account_owner _
          (dispatch-IsLocal P C sysvars account own iter input instruction paid)
