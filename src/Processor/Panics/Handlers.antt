-- ===== src/Processor/Panics/Handlers.antt =====
-- Panics in the handlers of program/src/accounting.rs, vote_processor.rs and processor.rs: casts,
-- `copy_from_slice` and borrows.
use alpenglow_vote.Base.{ℕ, ◌≢◌, arith}
use alpenglow_vote.Error.{account_borrow_failed}
use alpenglow_vote.Exec.{Outcome, err, panic, Exec}
use alpenglow_vote.Records.{Pubkey, Slot}
use alpenglow_vote.InstructionData.{
  AuthorityType, InitializeAccountInstructionData, NotarizationVoteInstructionData,
}
use alpenglow_vote.State.{VoteState}
use alpenglow_vote.Platform.{Platform, SlotHashes, Clock, Rent, EpochSchedule}
use alpenglow_vote.Account.{Store, borrow_mut_data, cast_mut}
use alpenglow_vote.Account.Laws.{IsIdle, Holds, borrow_mut_data-cast_mut}
use alpenglow_vote.Accounting.{
  withdraw, authorize, authorize_state, update_commission, update_validator_identity,
  update_commission_state, update_validator_identity_state,
}
use alpenglow_vote.VoteProcessor.{
  notarize_state, finalize_state, skip_state, process_notarization_vote, process_finalization_vote,
  process_skip_vote, award_credits,
}
use alpenglow_vote.Processor.{initialize_account}

module _ (P : Platform) (i : ℕ) (s : VoteState) (st : Store) (h : Holds P i s st) where
  open P use {pod_vote_state}

  -- A handler over `&mut VoteState` panics only where its block does.
  block-ne-panic :
      (blocked mismatch : Outcome (Unit {0})) (body : Exec VoteState (Unit {0}))
      → (body s).0 ≢ panic
      → (borrow_mut_data blocked i (cast_mut P mismatch body) st).0 ≢ panic
  block-ne-panic blocked mismatch body calm =
      rw (borrow_mut_data-cast_mut P blocked mismatch i body s st h) calm

  pub authorize-ne-panic :
      (k : Pubkey) (type : AuthorityType) (by : Pubkey) (clock : Clock)
      → (authorize P i k type by clock st).0 ≢ panic
  unfolding authorize authorize_state
  authorize-ne-panic k type by clock =
      block-ne-panic (err account_borrow_failed) (err P.pod_cast_error)
        (authorize_state k type by clock) (ground arith)

  pub update_validator_identity-ne-panic :
      (node by : Pubkey) → (update_validator_identity P i node by st).0 ≢ panic
  unfolding update_validator_identity update_validator_identity_state
  update_validator_identity-ne-panic node by =
      block-ne-panic (err account_borrow_failed) (err P.pod_cast_error)
        (update_validator_identity_state node by) (ground arith)

  pub update_commission-ne-panic :
      (c : ℕ) (by : Pubkey) (schedule : EpochSchedule) (clock : Clock)
      → (update_commission P i c by schedule clock st).0 ≢ panic
  unfolding update_commission update_commission_state
  update_commission-ne-panic c by schedule clock =
      block-ne-panic (err account_borrow_failed) (err P.pod_cast_error)
        (update_commission_state c by schedule clock) (ground arith)

  pub process_finalization_vote-ne-panic :
      (by : Pubkey) (clock : Clock) (slot : Slot)
      → (process_finalization_vote P i by clock slot st).0 ≢ panic
  unfolding process_finalization_vote finalize_state award_credits
  process_finalization_vote-ne-panic by clock slot =
      block-ne-panic (panic) (panic) (finalize_state by clock slot) (ground arith)

  pub process_notarization_vote-ne-panic :
      (by : Pubkey) (clock : Clock) (hashes : SlotHashes) (v : NotarizationVoteInstructionData)
      → hashes.get v.slot ≢ panic
      → (process_notarization_vote P i by clock hashes v st).0 ≢ panic
  unfolding process_notarization_vote notarize_state award_credits
  process_notarization_vote-ne-panic by clock hashes v calm =
      block-ne-panic panic panic (notarize_state by clock hashes v) (ground arith)

  pub process_skip_vote-ne-panic :
      (by : Pubkey) (clock : Clock) (hashes : SlotHashes) (slot : Slot)
      → hashes.get slot ≢ panic
      → (process_skip_vote P i by clock hashes slot st).0 ≢ panic
  unfolding process_skip_vote skip_state award_credits
  process_skip_vote-ne-panic by clock hashes slot calm =
      block-ne-panic panic panic (skip_state by clock hashes slot) (ground arith)

  pub withdraw-ne-panic :
      (j lamports : ℕ) (by : Pubkey) (rent : Rent) (clock : Clock)
      → IsIdle j st
      → (withdraw P i j lamports by rent clock st).0 ≢ panic
  unfolding withdraw
  withdraw-ne-panic j lamports by rent clock hj =
      ground (arith, pod_vote_state.length_law s, pod_vote_state.cast_law s h.in_range)

  pub initialize_account-ne-panic :
      (d : InitializeAccountInstructionData) (clock : Clock)
      → (initialize_account P i d clock st).0 ≢ panic
  unfolding initialize_account
  initialize_account-ne-panic d clock =
      ground (arith, pod_vote_state.length_law s, pod_vote_state.cast_law s h.in_range)
