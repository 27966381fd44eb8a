-- ===== src/Processor/Locality/Arms.antt =====
-- The accounts that each arm of program/src/processor.rs reads and writes.
use alpenglow_vote.Base.{ℕ, not, List, All, ◌/=◌}
use alpenglow_vote.Error.{
  invalid_authorize_type, from_vote_error, missing_required_signature, insufficient_funds,
  invalid_argument, missing_epoch_schedule_sysvar, missing_slot_hashes_sysvar,
}
use alpenglow_vote.Exec.{lift, ok_or, fail_if, ◌>>=◌, ◌>>◌}
use alpenglow_vote.Pod.{Bytes}
use alpenglow_vote.Records.{Pubkey}
use alpenglow_vote.InstructionData.{authority_type_from_u8}
use alpenglow_vote.Platform.{Platform, AccountInfo, Sysvars, Clock}
use alpenglow_vote.Account.Local.{
  IsLocal, bind-IsLocal, lift-bind-IsLocal, ok_or-bind-IsLocal, fail_if-bind-IsLocal,
}
use alpenglow_vote.Account.Local.Borrows.{
  borrow_mut_data-IsLocal, account_lamports-IsLocal, account_data_len-IsLocal,
}
use alpenglow_vote.Accounting.{authorize}
use alpenglow_vote.Accounting.Local.{
  authorize-IsLocal, update_validator_identity-IsLocal, update_commission-IsLocal, withdraw-IsLocal,
}
use alpenglow_vote.VoteProcessor.{
  map_err, process_notarization_vote, process_finalization_vote, process_skip_vote,
}
use alpenglow_vote.Instruction.{
  VoteInstruction, decode_instruction_data, decode_instruction_data_with_seed,
}
use alpenglow_vote.Processor.{
  initialize_account, next_signer, dispatch, process_initialize_account, process_authorize,
  process_authorize_checked, process_authorize_with_seed, process_authorize_checked_with_seed,
  process_withdraw, process_update_validator_identity, process_update_commission, process_notarize,
  process_finalize, process_skip,
}
use alpenglow_vote.Processor.Footprint.{paid_by}
use alpenglow_vote.Processor.Locality.Steps.{
  signer_then, initialize_account-IsLocal, taken_recipient,
}

module _ (P : Platform) (C : ℕ → Type 0) (sysvars : Sysvars) (account : AccountInfo)
    (own : C account.cell) (iter : List AccountInfo) (input : Bytes) where
  open P use {
    pod_u8, pod_u64, pod_initialize, pod_authorize, pod_with_seed, pod_checked_with_seed,
    pod_notarization, is_utf8, create_with_seed, next_account_info,
  }

  initialize_then : IsLocal C (do
    clock ← lift sysvars.clock
    (node, _) ← next_signer P iter
    d ← lift (decode_instruction_data P pod_initialize input)
    fail_if (d.node_pubkey /= node) missing_required_signature
    initialize_account P account.cell d clock)
  initialize_then = lift-bind-IsLocal C sysvars.clock _ λ clock _.
      signer_then P C iter _ λ node rest.
        lift-bind-IsLocal C (decode_instruction_data P pod_initialize input) _ λ d _.
          fail_if-bind-IsLocal C (d.node_pubkey /= node) missing_required_signature _
            (initialize_account-IsLocal P C account.cell own d clock)

  process_initialize_account-IsLocal :
      IsLocal C (process_initialize_account P sysvars account iter input)
  unfolding process_initialize_account
  process_initialize_account-IsLocal = lift-bind-IsLocal C sysvars.rent _ λ rent _.
      bind-IsLocal C _ _ (account_lamports-IsLocal C account.cell own) λ lamports.
        bind-IsLocal C _ _ (account_data_len-IsLocal C account.cell own) λ n.
          fail_if-bind-IsLocal C (not (rent.is_exempt lamports n)) insufficient_funds _
            initialize_then

  -- the end of the four arms that hand over an authority
  authorize_then :
      (n : ℕ) (key by : Pubkey) (clock : Clock)
      → IsLocal C (
          ok_or (authority_type_from_u8 n) (from_vote_error invalid_authorize_type) >>= λ type.
          authorize P account.cell key type by clock)
  authorize_then n key by clock =
      ok_or-bind-IsLocal C (authority_type_from_u8 n) (from_vote_error invalid_authorize_type) _
        λ type. authorize-IsLocal P C account.cell own key type by clock

  process_authorize-IsLocal : IsLocal C (process_authorize P sysvars account iter input)
  unfolding process_authorize
  process_authorize-IsLocal = lift-bind-IsLocal C sysvars.clock _ λ clock _.
      signer_then P C iter _ λ by rest.
        lift-bind-IsLocal C (decode_instruction_data P pod_authorize input) _
          λ d _. authorize_then d.authority_type d.new_authorized_pubkey by clock

  process_authorize_checked-IsLocal :
      IsLocal C (process_authorize_checked P sysvars account iter input)
  unfolding process_authorize_checked
  process_authorize_checked-IsLocal = lift-bind-IsLocal C sysvars.clock _ λ clock _.
      signer_then P C iter _ λ by rest. signer_then P C rest _ λ key _.
        lift-bind-IsLocal C (decode_instruction_data P pod_u8 input) _
          λ n _. authorize_then n key by clock

  -- the end of the two arms with a seed
  seeded_then :
      (seed : Bytes) (n : ℕ) (base owner key : Pubkey) (clock : Clock)
      → IsLocal C (do
        fail_if (not (is_utf8 seed)) invalid_argument
        type ← ok_or (authority_type_from_u8 n) (from_vote_error invalid_authorize_type)
        by ← lift (create_with_seed base seed owner)
        authorize P account.cell key type by clock)
  seeded_then seed n base owner key clock =
      fail_if-bind-IsLocal C (not (is_utf8 seed)) invalid_argument _ (
        ok_or-bind-IsLocal C (authority_type_from_u8 n) (from_vote_error invalid_authorize_type) _
          λ type.
            lift-bind-IsLocal C (create_with_seed base seed owner) _
              λ by _. authorize-IsLocal P C account.cell own key type by clock)

  process_authorize_with_seed-IsLocal :
      IsLocal C (process_authorize_with_seed P sysvars account iter input)
  unfolding process_authorize_with_seed
  process_authorize_with_seed-IsLocal = lift-bind-IsLocal C sysvars.clock _ λ clock _.
      signer_then P C iter _ λ base rest.
        lift-bind-IsLocal C (decode_instruction_data_with_seed P pod_with_seed input) _
          λ (d, seed) _.
            seeded_then seed d.authority_type base d.current_authority_derived_key_owner
              d.new_authority clock

  process_authorize_checked_with_seed-IsLocal :
      IsLocal C (process_authorize_checked_with_seed P sysvars account iter input)
  unfolding process_authorize_checked_with_seed
  process_authorize_checked_with_seed-IsLocal = lift-bind-IsLocal C sysvars.clock _ λ clock _.
      signer_then P C iter _ λ base rest. signer_then P C rest _ λ key _.
        lift-bind-IsLocal C (decode_instruction_data_with_seed P pod_checked_with_seed input) _
          λ (d, seed) _.
            seeded_then seed d.authority_type base d.current_authority_derived_key_owner key clock

  process_withdraw-IsLocal :
      All C (paid_by VoteInstruction.withdraw iter)
      → IsLocal C (process_withdraw P sysvars account iter input)
  unfolding process_withdraw
  process_withdraw-IsLocal paid =
      lift-bind-IsLocal C (next_account_info iter) _ λ (recipient, rest) e.
        lift-bind-IsLocal C sysvars.rent _ λ rent _. lift-bind-IsLocal C sysvars.clock _ λ clock _.
          signer_then P C rest _ λ by _.
            lift-bind-IsLocal C (decode_instruction_data P pod_u64 input) _ λ lamports _.
              withdraw-IsLocal P C account.cell own recipient.cell
                (taken_recipient P C iter rest recipient paid e) lamports by rent clock

  process_update_validator_identity-IsLocal :
      IsLocal C (process_update_validator_identity P sysvars account iter input)
  unfolding process_update_validator_identity
  process_update_validator_identity-IsLocal = signer_then P C iter _ λ node rest.
      signer_then P C rest _ λ by _. update_validator_identity-IsLocal P C account.cell own node by

  process_update_commission-IsLocal :
      IsLocal C (process_update_commission P sysvars account iter input)
  unfolding process_update_commission
  process_update_commission-IsLocal =
      lift-bind-IsLocal C
        (map_err (from_vote_error missing_epoch_schedule_sysvar) sysvars.epoch_schedule) _
        λ schedule _. lift-bind-IsLocal C sysvars.clock _ λ clock _.
          signer_then P C iter _ λ by rest.
            lift-bind-IsLocal C (decode_instruction_data P pod_u8 input) _ λ commission _.
              update_commission-IsLocal P C account.cell own commission by schedule clock

  -- the votes
  process_notarize-IsLocal : IsLocal C (process_notarize P sysvars account iter input)
  unfolding process_notarize process_notarization_vote
  process_notarize-IsLocal = lift-bind-IsLocal C sysvars.clock _ λ clock _.
      lift-bind-IsLocal C (map_err (from_vote_error missing_slot_hashes_sysvar) sysvars.slot_hashes)
        _
        λ hashes _. signer_then P C iter _ λ by rest.
          lift-bind-IsLocal C (decode_instruction_data P pod_notarization input) _
            λ vote _. borrow_mut_data-IsLocal C account.cell own _ _

  process_finalize-IsLocal : IsLocal C (process_finalize P sysvars account iter input)
  unfolding process_finalize process_finalization_vote
  process_finalize-IsLocal = lift-bind-IsLocal C sysvars.clock _ λ clock _.
      signer_then P C iter _ λ by rest.
        lift-bind-IsLocal C (decode_instruction_data P pod_u64 input) _
          λ vote _. borrow_mut_data-IsLocal C account.cell own _ _

  process_skip-IsLocal : IsLocal C (process_skip P sysvars account iter input)
  unfolding process_skip process_skip_vote
  process_skip-IsLocal = lift-bind-IsLocal C sysvars.clock _ λ clock _.
      lift-bind-IsLocal C (map_err (from_vote_error missing_slot_hashes_sysvar) sysvars.slot_hashes)
        _
        λ hashes _. signer_then P C iter _ λ by rest.
          lift-bind-IsLocal C (decode_instruction_data P pod_u64 input) _
            λ vote _. borrow_mut_data-IsLocal C account.cell own _ _

  pub dispatch-IsLocal :
      (i : VoteInstruction)
      → All C (paid_by i iter)
      → IsLocal C (dispatch P i sysvars account iter input)
  unfolding dispatch
  dispatch-IsLocal VoteInstruction.initialize_account paid = process_initialize_account-IsLocal
  dispatch-IsLocal VoteInstruction.authorize paid = process_authorize-IsLocal
  dispatch-IsLocal VoteInstruction.authorize_checked paid = process_authorize_checked-IsLocal
  dispatch-IsLocal VoteInstruction.authorize_with_seed paid = process_authorize_with_seed-IsLocal
  dispatch-IsLocal VoteInstruction.authorize_checked_with_seed paid =
      process_authorize_checked_with_seed-IsLocal
  dispatch-IsLocal VoteInstruction.withdraw paid = process_withdraw-IsLocal paid
  dispatch-IsLocal VoteInstruction.update_validator_identity paid =
      process_update_validator_identity-IsLocal
  dispatch-IsLocal VoteInstruction.update_commission paid = process_update_commission-IsLocal
  dispatch-IsLocal VoteInstruction.notarize paid = process_notarize-IsLocal
  dispatch-IsLocal VoteInstruction.finalize paid = process_finalize-IsLocal
  dispatch-IsLocal VoteInstruction.skip paid = process_skip-IsLocal
  dispatch-IsLocal VoteInstruction.notarize_fallback paid = process_notarize-IsLocal
  dispatch-IsLocal VoteInstruction.skip_fallback paid = process_skip-IsLocal
