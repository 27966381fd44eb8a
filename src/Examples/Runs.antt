-- ===== src/Examples/Runs.antt =====
-- Runs of `process_instruction` of program/src/processor.rs on the sample accounts.
use alpenglow_vote.Base.{ℕ, ◌≡◌, ◌∷◌, ◌++◌, [], refl, List, some}
use alpenglow_vote.Word.{
  saturating_add, saturating_sub, saturating_mul, checked_add, checked_sub, checked_rem,
}
use alpenglow_vote.Error.{
  missing_required_signature, invalid_instruction_data, from_vote_error, skip_slot_present,
  replay_bank_hash_mismatch, insufficient_funds, commission_update_too_late,
  account_already_initialized, active_vote_account_close,
}
use alpenglow_vote.Exec.{Outcome, ok, err}
use alpenglow_vote.Pod.{Bytes}
use alpenglow_vote.Records.EpochCredit
use alpenglow_vote.Records.AuthorizedVoter
use alpenglow_vote.InstructionData.{authority_type_from_u8}
use alpenglow_vote.State.{VoteState, new, is_initialized}
use alpenglow_vote.Platform.{AccountInfo}
use alpenglow_vote.Account.{
  borrow_data, borrow_mut_data, borrow_mut_lamports, try_lamports, cast_mut, cast,
  set_vote_account_state,
}
use alpenglow_vote.Accounting.{
  authorize_state, update_validator_identity_state, update_commission_state,
  is_commission_update_allowed, authorize, update_validator_identity, update_commission, close,
  move_lamports, withdraw,
}
use alpenglow_vote.VoteProcessor.{
  process_notarization_vote, process_finalization_vote, process_skip_vote, notarize_state,
  finalize_state, skip_state, award_notarization_credits, award_finalization_credits,
  award_skip_credits, award_credits, set_credits, latency_to_credits, earn,
}
use alpenglow_vote.Processor.{
  process_instruction, dispatch, next_signer, process_notarize, process_finalize, process_skip,
  process_initialize_account, process_authorize, process_authorize_checked,
  process_authorize_with_seed, process_authorize_checked_with_seed, process_withdraw,
  process_update_validator_identity, process_update_commission,
}
use alpenglow_vote.Processor
use alpenglow_vote.Instruction.{
  decode_instruction_type, decode_instruction_data, decode_instruction_data_with_seed,
  pod_from_bytes, try_from,
}
use alpenglow_vote.Examples.Codecs.{to_le, from_le, pod_le, pod_pair, pod_as, pod_option}
use alpenglow_vote.Examples.Layouts.{
  pod_vote_state, pod_voter, pod_next_voter, pod_credit, pod_initialize, pod_authorize,
  pod_with_seed, pod_checked_with_seed, pod_notarization,
}
use alpenglow_vote.Examples.Sample.{sample}
use alpenglow_vote.Examples.Accounts.{
  voting, vote_account, voter_account, withdrawer_account, node_account, recipient_account, sysvars,
  store,
}

abbrev outcome : List AccountInfo → Bytes → Outcome (Unit {0})
outcome accounts input = (process_instruction sample sysvars 77 accounts input store).0

-- the vote state that a run leaves in account 0
abbrev left : List AccountInfo → Bytes → VoteState
left accounts input =
    sample.pod_vote_state.from_bytes
      ((process_instruction sample sysvars 77 accounts input store).1 0).contents

abbrev votes_with : AccountInfo → List AccountInfo
votes_with a = vote_account ∷ a ∷ []

-- a notarization of `slot` with the bank hash `hash`
abbrev notarization : ℕ → ℕ → Bytes
notarization slot hash = 8 ∷ 1 ∷ (to_le 8 slot ++ to_le 32 21 ++ to_le 8 0 ++ to_le 32 hash)

vote_runs :
    (outcome (votes_with voter_account) (9 ∷ to_le 8 97) ≡ ok tt)
    × ((left (votes_with voter_account) (9 ∷ to_le 8 97)).epoch_credits ≡ EpochCredit.new 5 45 20)
    × (outcome (votes_with withdrawer_account) (9 ∷ to_le 8 97) ≡ err missing_required_signature)
    × (left (votes_with withdrawer_account) (9 ∷ to_le 8 97) ≡ voting)
    × (outcome (votes_with voter_account) (notarization 97 11) ≡ ok tt)
    × (outcome (votes_with voter_account) (notarization 97 12)
        ≡ err (from_vote_error replay_bank_hash_mismatch))
    × (outcome (votes_with voter_account) (10 ∷ to_le 8 97)
        ≡ err (from_vote_error skip_slot_present))
    × (outcome (votes_with voter_account) (12 ∷ to_le 8 90) ≡ ok tt)
    × (outcome (votes_with voter_account) (9 ∷ []) ≡ err invalid_instruction_data)
    × (outcome (votes_with voter_account) [] ≡ err invalid_instruction_data)
unfolding sample pod_vote_state pod_voter pod_next_voter pod_credit pod_initialize pod_authorize
    pod_with_seed pod_checked_with_seed pod_notarization to_le from_le pod_le pod_pair pod_as
    pod_option process_instruction dispatch next_signer decode_instruction_type
    decode_instruction_data decode_instruction_data_with_seed pod_from_bytes try_from saturating_add
    saturating_sub saturating_mul checked_add checked_sub checked_rem borrow_data borrow_mut_data
    borrow_mut_lamports try_lamports cast_mut cast set_vote_account_state process_notarize
    process_finalize process_skip process_notarization_vote process_finalization_vote
    process_skip_vote notarize_state finalize_state skip_state award_notarization_credits
    award_finalization_credits award_skip_credits award_credits set_credits latency_to_credits earn
vote_runs = (refl, refl, refl, refl, refl, refl, refl, refl, refl, refl)

admin_runs :
    (outcome (votes_with withdrawer_account) (1 ∷ (to_le 32 8 ++ to_le 1 0)) ≡ ok tt)
    × ((left (votes_with withdrawer_account) (1 ∷ (to_le 32 8 ++ to_le 1 0))).next_authorized_voter
        ≡ some (AuthorizedVoter.new 7 8))
    × (outcome (votes_with voter_account) (1 ∷ (to_le 32 8 ++ to_le 1 1))
        ≡ err missing_required_signature)
    × (outcome (vote_account ∷ recipient_account ∷ withdrawer_account ∷ []) (5 ∷ to_le 8 300)
        ≡ ok tt)
    × (outcome (vote_account ∷ recipient_account ∷ withdrawer_account ∷ []) (5 ∷ to_le 8 1000)
        ≡ err (from_vote_error active_vote_account_close))
    × (outcome (vote_account ∷ recipient_account ∷ withdrawer_account ∷ []) (5 ∷ to_le 8 1001)
        ≡ err insufficient_funds)
    × (outcome (vote_account ∷ node_account ∷ withdrawer_account ∷ []) (6 ∷ []) ≡ ok tt)
    × (outcome (votes_with withdrawer_account) (7 ∷ 11 ∷ []) ≡ ok tt)
    × (outcome (votes_with withdrawer_account) (7 ∷ 9 ∷ [])
        ≡ err (from_vote_error commission_update_too_late))
    × (outcome
          (votes_with node_account)
          (0 ∷ (to_le 32 5 ++ to_le 32 9 ++ to_le 32 7 ++ to_le 1 10 ++ to_le 96 123))
        ≡ err account_already_initialized)
unfolding sample pod_vote_state pod_voter pod_next_voter pod_credit pod_initialize pod_authorize
    pod_with_seed pod_checked_with_seed pod_notarization to_le from_le pod_le pod_pair pod_as
    pod_option process_instruction dispatch next_signer decode_instruction_type
    decode_instruction_data decode_instruction_data_with_seed pod_from_bytes try_from saturating_add
    saturating_sub saturating_mul checked_add checked_sub checked_rem borrow_data borrow_mut_data
    borrow_mut_lamports try_lamports cast_mut cast set_vote_account_state process_initialize_account
    Processor.initialize_account new is_initialized process_authorize process_authorize_checked
    process_authorize_with_seed process_authorize_checked_with_seed process_withdraw
    process_update_validator_identity process_update_commission authorize_state
    update_validator_identity_state update_commission_state is_commission_update_allowed authorize
    update_validator_identity update_commission close move_lamports withdraw authority_type_from_u8
admin_runs = (refl, refl, refl, refl, refl, refl, refl, refl, refl, refl)
