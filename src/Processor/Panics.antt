-- ===== src/Processor/Panics.antt =====
-- Panics in program/src/processor.rs: slices, and what its handlers and the runtime do.
pub mod Handlers
use alpenglow_vote.Base.{ℕ, ◌≡◌, ◌≢◌, ◌∷◌, [], List, arith}
use alpenglow_vote.Error.{account_borrow_failed}
use alpenglow_vote.Exec.{Outcome, ok, err, panic, Exec}
use alpenglow_vote.Pod.{Bytes}
use alpenglow_vote.Records.{Pubkey, Slot}
use alpenglow_vote.InstructionData.{
  AuthorityType, InitializeAccountInstructionData, NotarizationVoteInstructionData,
}
use alpenglow_vote.State.{VoteState}
use alpenglow_vote.Platform.{Platform, AccountInfo, Sysvars, SlotHashes, Clock, Rent, EpochSchedule}
use alpenglow_vote.Account.{Store, borrow_mut_data, cast_mut}
use alpenglow_vote.Account.Laws.{IsIdle, Holds, borrow_mut_data-cast_mut}
use alpenglow_vote.Accounting.{
  withdraw, authorize, authorize_state, update_commission, update_validator_identity,
  update_commission_state, update_validator_identity_state,
}
use alpenglow_vote.VoteProcessor.{
  notarize_state, finalize_state, skip_state, process_notarization_vote, process_finalization_vote,
  process_skip_vote, award_credits,
}
use alpenglow_vote.Instruction.{VoteInstruction}
use alpenglow_vote.Instruction.Decode.{
  decode_instruction_type-ne-panic, decode_instruction_data-ne-panic,
  decode_instruction_data_with_seed-ne-panic,
}
use alpenglow_vote.Processor.{
  next_signer, initialize_account, dispatch, process_instruction, process_initialize_account,
  process_authorize, process_authorize_checked, process_authorize_with_seed,
  process_authorize_checked_with_seed, process_withdraw, process_update_validator_identity,
  process_update_commission, process_notarize, process_finalize, process_skip,
}
use alpenglow_vote.Processor.Refines.{Scene}
use alpenglow_vote.Processor.Safety.{run}
use alpenglow_vote.Processor.Panics.Handlers.{
  authorize-ne-panic, update_validator_identity-ne-panic, update_commission-ne-panic,
  process_finalization_vote-ne-panic, process_notarization_vote-ne-panic,
  process_skip_vote-ne-panic, withdraw-ne-panic, initialize_account-ne-panic,
}

-- What the program calls outside the repository does not panic.
pub record IsCalm (P : Platform) (sysvars : Sysvars) : Type 0 where
  pub rent_calm : sysvars.rent ≢ panic
  pub clock_calm : sysvars.clock ≢ panic
  pub epoch_schedule_calm : sysvars.epoch_schedule ≢ panic
  pub slot_hashes_calm : sysvars.slot_hashes ≢ panic
  pub get_calm :
      (hashes : SlotHashes) (slot : Slot)
      → sysvars.slot_hashes ≡ ok hashes
      → hashes.get slot ≢ panic
  pub create_with_seed_calm :
      (base : Pubkey) (seed : Bytes) (owner : Pubkey) → P.create_with_seed base seed owner ≢ panic
  pub unpack_seed_calm : (bytes : Bytes) → P.unpack_seed bytes ≢ panic

module _ (P : Platform) where
  next_account_info-ne-panic : (front : List AccountInfo) → P.next_account_info front ≢ panic
  next_account_info-ne-panic [] = cc P.no_account_law
  next_account_info-ne-panic (a ∷ rest) = cc (P.next_law a rest)

-- the steps that arms have in common
ruleset arm_steps = (arith, next_account_info-ne-panic, decode_instruction_data-ne-panic)

module _ (x : Scene) (calm : IsCalm x.P x.sysvars) where
  open x use {P, sysvars, account, iter, input, s, st, holds, idle}
  open calm use {get_calm, create_with_seed_calm, unpack_seed_calm}

  process_initialize_account-ne-panic :
      (process_initialize_account P sysvars account iter input st).0 ≢ panic
  unfolding process_initialize_account next_signer
  process_initialize_account-ne-panic =
      grind (arm_steps, calm, initialize_account-ne-panic P account.cell s st holds)

  process_authorize-ne-panic : (process_authorize P sysvars account iter input st).0 ≢ panic
  unfolding process_authorize next_signer
  process_authorize-ne-panic = grind (arm_steps, calm, authorize-ne-panic P account.cell s st holds)

  process_authorize_checked-ne-panic :
      (process_authorize_checked P sysvars account iter input st).0 ≢ panic
  unfolding process_authorize_checked next_signer
  process_authorize_checked-ne-panic =
      grind (arm_steps, calm, authorize-ne-panic P account.cell s st holds)

  process_authorize_with_seed-ne-panic :
      (process_authorize_with_seed P sysvars account iter input st).0 ≢ panic
  unfolding process_authorize_with_seed next_signer
  process_authorize_with_seed-ne-panic = grind (
    arm_steps,
    calm,
    authorize-ne-panic P account.cell s st holds,
    create_with_seed_calm,
    decode_instruction_data_with_seed-ne-panic P P.pod_with_seed unpack_seed_calm,
  )

  process_authorize_checked_with_seed-ne-panic :
      (process_authorize_checked_with_seed P sysvars account iter input st).0 ≢ panic
  unfolding process_authorize_checked_with_seed next_signer
  process_authorize_checked_with_seed-ne-panic = grind (
    arm_steps,
    calm,
    authorize-ne-panic P account.cell s st holds,
    create_with_seed_calm,
    decode_instruction_data_with_seed-ne-panic P P.pod_checked_with_seed unpack_seed_calm,
  )

  process_withdraw-ne-panic : (process_withdraw P sysvars account iter input st).0 ≢ panic
  unfolding process_withdraw next_signer
  process_withdraw-ne-panic =
      grind (arm_steps, calm, withdraw-ne-panic P account.cell s st holds, idle)

  process_update_validator_identity-ne-panic :
      (process_update_validator_identity P sysvars account iter input st).0 ≢ panic
  unfolding process_update_validator_identity next_signer
  process_update_validator_identity-ne-panic =
      grind (arm_steps, calm, update_validator_identity-ne-panic P account.cell s st holds)

  process_update_commission-ne-panic :
      (process_update_commission P sysvars account iter input st).0 ≢ panic
  unfolding process_update_commission next_signer
  process_update_commission-ne-panic =
      grind (arm_steps, calm, update_commission-ne-panic P account.cell s st holds)

  process_notarize-ne-panic : (process_notarize P sysvars account iter input st).0 ≢ panic
  unfolding process_notarize next_signer
  process_notarize-ne-panic =
      grind
        (arm_steps, calm, process_notarization_vote-ne-panic P account.cell s st holds, get_calm)

  process_finalize-ne-panic : (process_finalize P sysvars account iter input st).0 ≢ panic
  unfolding process_finalize next_signer
  process_finalize-ne-panic =
      grind (arm_steps, calm, process_finalization_vote-ne-panic P account.cell s st holds)

  process_skip-ne-panic : (process_skip P sysvars account iter input st).0 ≢ panic
  unfolding process_skip next_signer
  process_skip-ne-panic =
      grind (arm_steps, calm, process_skip_vote-ne-panic P account.cell s st holds, get_calm)

  dispatch-ne-panic : (i : VoteInstruction) → (dispatch P i sysvars account iter input st).0 ≢ panic
  unfolding dispatch
  dispatch-ne-panic VoteInstruction.initialize_account = process_initialize_account-ne-panic
  dispatch-ne-panic VoteInstruction.authorize = process_authorize-ne-panic
  dispatch-ne-panic VoteInstruction.authorize_checked = process_authorize_checked-ne-panic
  dispatch-ne-panic VoteInstruction.authorize_with_seed = process_authorize_with_seed-ne-panic
  dispatch-ne-panic VoteInstruction.authorize_checked_with_seed =
      process_authorize_checked_with_seed-ne-panic
  dispatch-ne-panic VoteInstruction.withdraw = process_withdraw-ne-panic
  dispatch-ne-panic VoteInstruction.update_validator_identity =
      process_update_validator_identity-ne-panic
  dispatch-ne-panic VoteInstruction.update_commission = process_update_commission-ne-panic
  dispatch-ne-panic VoteInstruction.notarize = process_notarize-ne-panic
  dispatch-ne-panic VoteInstruction.finalize = process_finalize-ne-panic
  dispatch-ne-panic VoteInstruction.skip = process_skip-ne-panic
  dispatch-ne-panic VoteInstruction.notarize_fallback = process_notarize-ne-panic
  dispatch-ne-panic VoteInstruction.skip_fallback = process_skip-ne-panic

-- If the vote account holds a vote state, nothing is borrowed, the input is in range and no call of
-- the runtime's panics, the program does not panic: whatever accounts and bytes it is given, it
-- ends with success or an error.
pub process_instruction-ne-panic :
    (x : Scene) (program_id : Pubkey) → IsCalm x.P x.sysvars → (run x program_id).0 ≢ panic
unfolding process_instruction
process_instruction-ne-panic x program_id calm = grind (
  arith,
  decode_instruction_type-ne-panic x.input,
  x.P.next_law x.account x.iter,
  dispatch-ne-panic x calm,
)
