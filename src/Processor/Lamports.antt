-- ===== src/Processor/Lamports.antt =====
-- The lamports and the borrows of all accounts under `process_instruction` of
-- program/src/processor.rs.
use alpenglow_vote.Base.{ℕ, ◌≡◌, ◌≢◌, List, refl, arith}
use alpenglow_vote.Exec.{Outcome, Exec}
use alpenglow_vote.Pod.{Bytes}
use alpenglow_vote.Platform.{Platform, AccountInfo, Sysvars, Clock}
use alpenglow_vote.InstructionData.{InitializeAccountInstructionData}
use alpenglow_vote.Account.{
  Cells, Store, cast, borrow_mut_data, borrow_data, set_vote_account_state,
}
use alpenglow_vote.Accounting.{authorize, update_validator_identity, update_commission}
use alpenglow_vote.VoteProcessor.{
  process_notarization_vote, process_finalization_vote, process_skip_vote,
}
use alpenglow_vote.Instruction.{VoteInstruction}
use alpenglow_vote.Processor.{
  initialize_account, next_signer, dispatch, process_initialize_account, process_authorize,
  process_authorize_checked, process_authorize_with_seed, process_authorize_checked_with_seed,
  process_update_validator_identity, process_update_commission, process_notarize, process_finalize,
  process_skip,
}

-- All of an account but its data.
abbrev SameRest : Cells → Cells → Type 0
SameRest d c =
    (d.lamports ≡ c.lamports)
    × (d.lamports_borrow ≡ c.lamports_borrow)
    × (d.contents_borrow ≡ c.contents_borrow)

borrow_mut_data-SameRest :
    (blocked : Outcome (Unit {0})) (i : ℕ) (update : Bytes → Outcome (Unit {0}) × Bytes)
    (st : Store) (k : ℕ)
    → SameRest ((borrow_mut_data blocked i update st).1 k) (st k)
unfolding borrow_mut_data
borrow_mut_data-SameRest blocked i update st k = ground arith

initialize_account-SameRest :
    (P : Platform) (i : ℕ) (d : InitializeAccountInstructionData) (clock : Clock) (st : Store)
    (k : ℕ)
    → SameRest ((initialize_account P i d clock st).1 k) (st k)
unfolding initialize_account borrow_data cast set_vote_account_state borrow_mut_data
initialize_account-SameRest P i d clock st k = ground arith

module _ (P : Platform) (sysvars : Sysvars) (account : AccountInfo) (iter : List AccountInfo)
    (input : Bytes) (st : Store) where
  abbrev pub KeepsRest : Exec Store (Unit {0}) → Type 0
  KeepsRest m = (k : ℕ) → SameRest ((m st).1 k) (st k)

  process_initialize_account-KeepsRest :
      KeepsRest (process_initialize_account P sysvars account iter input)
  unfolding process_initialize_account next_signer
  process_initialize_account-KeepsRest k = grind (arith, initialize_account-SameRest)

  process_authorize-KeepsRest : KeepsRest (process_authorize P sysvars account iter input)
  unfolding process_authorize authorize next_signer
  process_authorize-KeepsRest k = grind (arith, borrow_mut_data-SameRest)

  process_authorize_checked-KeepsRest :
      KeepsRest (process_authorize_checked P sysvars account iter input)
  unfolding process_authorize_checked authorize next_signer
  process_authorize_checked-KeepsRest k = grind (arith, borrow_mut_data-SameRest)

  process_authorize_with_seed-KeepsRest :
      KeepsRest (process_authorize_with_seed P sysvars account iter input)
  unfolding process_authorize_with_seed authorize next_signer
  process_authorize_with_seed-KeepsRest k = grind (arith, borrow_mut_data-SameRest)

  process_authorize_checked_with_seed-KeepsRest :
      KeepsRest (process_authorize_checked_with_seed P sysvars account iter input)
  unfolding process_authorize_checked_with_seed authorize next_signer
  process_authorize_checked_with_seed-KeepsRest k = grind (arith, borrow_mut_data-SameRest)

  process_update_validator_identity-KeepsRest :
      KeepsRest (process_update_validator_identity P sysvars account iter input)
  unfolding process_update_validator_identity update_validator_identity next_signer
  process_update_validator_identity-KeepsRest k = grind (arith, borrow_mut_data-SameRest)

  process_update_commission-KeepsRest :
      KeepsRest (process_update_commission P sysvars account iter input)
  unfolding process_update_commission update_commission next_signer
  process_update_commission-KeepsRest k = grind (arith, borrow_mut_data-SameRest)

  process_notarize-KeepsRest : KeepsRest (process_notarize P sysvars account iter input)
  unfolding process_notarize process_notarization_vote next_signer
  process_notarize-KeepsRest k = grind (arith, borrow_mut_data-SameRest)

  process_finalize-KeepsRest : KeepsRest (process_finalize P sysvars account iter input)
  unfolding process_finalize process_finalization_vote next_signer
  process_finalize-KeepsRest k = grind (arith, borrow_mut_data-SameRest)

  process_skip-KeepsRest : KeepsRest (process_skip P sysvars account iter input)
  unfolding process_skip process_skip_vote next_signer
  process_skip-KeepsRest k = grind (arith, borrow_mut_data-SameRest)

  -- Every instruction but `Withdraw`.
  pub dispatch-KeepsRest :
      (i : VoteInstruction)
      → i ≢ VoteInstruction.withdraw
      → KeepsRest (dispatch P i sysvars account iter input)
  unfolding dispatch
  dispatch-KeepsRest VoteInstruction.initialize_account ne = process_initialize_account-KeepsRest
  dispatch-KeepsRest VoteInstruction.authorize ne = process_authorize-KeepsRest
  dispatch-KeepsRest VoteInstruction.authorize_checked ne = process_authorize_checked-KeepsRest
  dispatch-KeepsRest VoteInstruction.authorize_with_seed ne = process_authorize_with_seed-KeepsRest
  dispatch-KeepsRest VoteInstruction.authorize_checked_with_seed ne =
      process_authorize_checked_with_seed-KeepsRest
  dispatch-KeepsRest VoteInstruction.withdraw ne = absurd (ne refl)
  dispatch-KeepsRest VoteInstruction.update_validator_identity ne =
      process_update_validator_identity-KeepsRest
  dispatch-KeepsRest VoteInstruction.update_commission ne = process_update_commission-KeepsRest
  dispatch-KeepsRest VoteInstruction.notarize ne = process_notarize-KeepsRest
  dispatch-KeepsRest VoteInstruction.finalize ne = process_finalize-KeepsRest
  dispatch-KeepsRest VoteInstruction.skip ne = process_skip-KeepsRest
  dispatch-KeepsRest VoteInstruction.notarize_fallback ne = process_notarize-KeepsRest
  dispatch-KeepsRest VoteInstruction.skip_fallback ne = process_skip-KeepsRest
