-- ===== src/Processor.antt =====
-- program/src/processor.rs: the dispatch of an instruction to its handler, one definition for each
-- arm of the match, in the order in which the arm reads sysvars, accounts and data.
pub mod Signer
pub mod Refines
pub mod VoteArms
pub mod Safety
pub mod EndToEnd
pub mod Requests
pub mod Panics
pub mod Transfers
pub mod Footprint
pub mod Locality
pub mod Schedule
pub mod Reorder
pub mod Writes
pub mod Voting
pub mod Opening
pub mod Custody
pub mod Supply
pub mod Success
pub mod Lamports
pub mod Idle
pub mod Trace
pub mod Chain
pub mod Ledger
pub mod Allowed
pub mod Initialize
pub mod AdminArms
pub mod AuthorizeArms
use alpenglow_vote.Base.{ℕ, Bool, not, Option, none, some, List, length, ◌==◌, ◌/=◌, if◌then◌else◌}
use alpenglow_vote.Error.{
  invalid_argument, invalid_account_data, invalid_account_owner, insufficient_funds,
  missing_required_signature, account_already_initialized, from_vote_error, invalid_authorize_type,
  missing_slot_hashes_sysvar, missing_epoch_schedule_sysvar,
}
use alpenglow_vote.Exec.{Outcome, ok, err, Exec, ◌>>=◌, ◌>>◌, pure, lift, ok_or, gets, fail_if}
use alpenglow_vote.Pod.{Bytes}
use alpenglow_vote.Records.{Pubkey}
use alpenglow_vote.InstructionData.{
  InitializeAccountInstructionData, AuthorityType, authority_type_from_u8,
}
use alpenglow_vote.State.{VoteState, new, is_initialized}
use alpenglow_vote.Platform.{Platform, AccountInfo, Sysvars, Clock, EpochSchedule, SlotHashes}
use alpenglow_vote.Account.{
  Store, account_lamports, account_data_len, borrow_data, cast, set_vote_account_state,
}
use alpenglow_vote.Accounting
use alpenglow_vote.VoteProcessor
use alpenglow_vote.VoteProcessor.{map_err}
use alpenglow_vote.Instruction.{
  VoteInstruction, decode_instruction_type, decode_instruction_data,
  decode_instruction_data_with_seed,
}

module _ (P : Platform) where
  open P use {
    pod_u8, pod_u64, pod_vote_state, pod_initialize, pod_authorize, pod_with_seed,
    pod_checked_with_seed, pod_notarization, is_utf8, create_with_seed, next_account_info,
    signer_key,
  }

  unfoldable pub initialize_account :
      ℕ → InitializeAccountInstructionData → Clock → Exec Store (Unit {0})
  unfolding borrow_data cast set_vote_account_state
  initialize_account vote_account init_data clock = do
    data_len ← account_data_len vote_account
    fail_if (data_len /= pod_vote_state.size) invalid_account_data
    borrow_data vote_account λ bytes. do
      vote_state ← lift (cast P bytes)
      fail_if (is_initialized vote_state) account_already_initialized
    set_vote_account_state P vote_account (new init_data clock.epoch)

  -- `next_account_info(iter)?.signer_key()`, which must be `Some`.
  unfoldable pub next_signer : List AccountInfo → Exec Store (Pubkey × List AccountInfo)
  next_signer iter = do
    (account, rest) ← lift (next_account_info iter)
    key ← ok_or (signer_key account) missing_required_signature
    pure (key, rest)

  -- `AuthorityType::try_from(b).map_err(...)?`
  abbrev authority_type : ℕ → Exec Store AuthorityType
  authority_type b = ok_or (authority_type_from_u8 b) (from_vote_error invalid_authorize_type)

  -- An arm of the match: the sysvars, the vote account, the accounts after it, the whole input.
  abbrev pub Arm : Type 0
  Arm = Sysvars → AccountInfo → List AccountInfo → Bytes → Exec Store (Unit {0})

  unfoldable pub process_initialize_account : Arm
  unfolding next_signer
  process_initialize_account sysvars vote_account iter input = do
    rent ← lift sysvars.rent
    lamports ← account_lamports vote_account.cell
    data_len ← account_data_len vote_account.cell
    fail_if (not (rent.is_exempt lamports data_len)) insufficient_funds
    clock ← lift sysvars.clock
    (node_pubkey, _) ← next_signer iter
    instruction_data ← lift (decode_instruction_data P pod_initialize input)
    fail_if (instruction_data.node_pubkey /= node_pubkey) missing_required_signature
    initialize_account vote_account.cell instruction_data clock

  unfoldable pub process_authorize : Arm
  unfolding next_signer
  process_authorize sysvars vote_account iter input = do
    clock ← lift sysvars.clock
    (authority_pubkey, _) ← next_signer iter
    instruction_data ← lift (decode_instruction_data P pod_authorize input)
    vote_authorize ← authority_type instruction_data.authority_type
    Accounting.authorize P vote_account.cell instruction_data.new_authorized_pubkey vote_authorize
        authority_pubkey clock

  unfoldable pub process_authorize_checked : Arm
  unfolding next_signer
  process_authorize_checked sysvars vote_account iter input = do
    clock ← lift sysvars.clock
    (authority_pubkey, iter') ← next_signer iter
    (new_authority_pubkey, _) ← next_signer iter'
    b ← lift (decode_instruction_data P pod_u8 input)
    vote_authorize ← authority_type b
    Accounting.authorize P vote_account.cell new_authority_pubkey vote_authorize authority_pubkey
        clock

  unfoldable pub process_authorize_with_seed : Arm
  unfolding next_signer
  process_authorize_with_seed sysvars vote_account iter input = do
    clock ← lift sysvars.clock
    (base_key, _) ← next_signer iter
    (instruction_data, seed) ← lift (decode_instruction_data_with_seed P pod_with_seed input)
    fail_if (not (is_utf8 seed)) invalid_argument
    vote_authorize ← authority_type instruction_data.authority_type
    authority_pubkey ←
        lift (create_with_seed base_key seed instruction_data.current_authority_derived_key_owner)
    Accounting.authorize P vote_account.cell instruction_data.new_authority vote_authorize
        authority_pubkey clock

  unfoldable pub process_authorize_checked_with_seed : Arm
  unfolding next_signer
  process_authorize_checked_with_seed sysvars vote_account iter input = do
    clock ← lift sysvars.clock
    (base_key, iter') ← next_signer iter
    (new_authority_pubkey, _) ← next_signer iter'
    (instruction_data, seed) ←
        lift (decode_instruction_data_with_seed P pod_checked_with_seed input)
    fail_if (not (is_utf8 seed)) invalid_argument
    vote_authorize ← authority_type instruction_data.authority_type
    authority_pubkey ←
        lift (create_with_seed base_key seed instruction_data.current_authority_derived_key_owner)
    Accounting.authorize P vote_account.cell new_authority_pubkey vote_authorize authority_pubkey
        clock

  unfoldable pub process_withdraw : Arm
  unfolding next_signer
  process_withdraw sysvars vote_account iter input = do
    (recipient, iter') ← lift (next_account_info iter)
    rent ← lift sysvars.rent
    clock ← lift sysvars.clock
    (withdraw_authority_pubkey, _) ← next_signer iter'
    lamports ← lift (decode_instruction_data P pod_u64 input)
    Accounting.withdraw P vote_account.cell recipient.cell lamports withdraw_authority_pubkey rent
        clock

  unfoldable pub process_update_validator_identity : Arm
  unfolding next_signer
  process_update_validator_identity sysvars vote_account iter input = do
    (new_node_pubkey, iter') ← next_signer iter
    (withdraw_pubkey, _) ← next_signer iter'
    Accounting.update_validator_identity P vote_account.cell new_node_pubkey withdraw_pubkey

  abbrev epoch_schedule : Sysvars → Exec Store EpochSchedule
  epoch_schedule sysvars =
      lift (map_err (from_vote_error missing_epoch_schedule_sysvar) sysvars.epoch_schedule)

  unfoldable pub process_update_commission : Arm
  unfolding next_signer
  process_update_commission sysvars vote_account iter input = do
    schedule ← epoch_schedule sysvars
    clock ← lift sysvars.clock
    (withdraw_authority_pubkey, _) ← next_signer iter
    commission ← lift (decode_instruction_data P pod_u8 input)
    Accounting.update_commission P vote_account.cell commission withdraw_authority_pubkey schedule
        clock

  abbrev pod_slot_hashes : Sysvars → Exec Store SlotHashes
  pod_slot_hashes sysvars =
      lift (map_err (from_vote_error missing_slot_hashes_sysvar) sysvars.slot_hashes)

  -- the arms of `Notarize` and `NotarizeFallback`
  unfoldable pub process_notarize : Arm
  unfolding next_signer
  process_notarize sysvars vote_account iter input = do
    clock ← lift sysvars.clock
    slot_hashes ← pod_slot_hashes sysvars
    (authority, _) ← next_signer iter
    vote ← lift (decode_instruction_data P pod_notarization input)
    VoteProcessor.process_notarization_vote P vote_account.cell authority clock slot_hashes vote

  unfoldable pub process_finalize : Arm
  unfolding next_signer
  process_finalize sysvars vote_account iter input = do
    clock ← lift sysvars.clock
    (authority, _) ← next_signer iter
    vote ← lift (decode_instruction_data P pod_u64 input)
    VoteProcessor.process_finalization_vote P vote_account.cell authority clock vote

  -- the arms of `Skip` and `SkipFallback`
  unfoldable pub process_skip : Arm
  unfolding next_signer
  process_skip sysvars vote_account iter input = do
    clock ← lift sysvars.clock
    slot_hashes ← pod_slot_hashes sysvars
    (authority, _) ← next_signer iter
    vote ← lift (decode_instruction_data P pod_u64 input)
    VoteProcessor.process_skip_vote P vote_account.cell authority clock slot_hashes vote

  unfoldable pub dispatch : VoteInstruction → Arm
  dispatch VoteInstruction.initialize_account = process_initialize_account
  dispatch VoteInstruction.authorize = process_authorize
  dispatch VoteInstruction.authorize_checked = process_authorize_checked
  dispatch VoteInstruction.authorize_with_seed = process_authorize_with_seed
  dispatch VoteInstruction.authorize_checked_with_seed = process_authorize_checked_with_seed
  dispatch VoteInstruction.withdraw = process_withdraw
  dispatch VoteInstruction.update_validator_identity = process_update_validator_identity
  dispatch VoteInstruction.update_commission = process_update_commission
  dispatch VoteInstruction.notarize = process_notarize
  dispatch VoteInstruction.finalize = process_finalize
  dispatch VoteInstruction.skip = process_skip
  dispatch VoteInstruction.notarize_fallback = process_notarize
  dispatch VoteInstruction.skip_fallback = process_skip

  unfoldable pub process_instruction :
      Sysvars → Pubkey → List AccountInfo → Bytes → Exec Store (Unit {0})
  unfolding dispatch
  process_instruction sysvars program_id accounts input = do
    instruction_type ← lift (decode_instruction_type input)
    (vote_account, iter) ← lift (next_account_info accounts)
    fail_if (vote_account.owner /= program_id) invalid_account_owner
    dispatch instruction_type sysvars vote_account iter input
