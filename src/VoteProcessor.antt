-- ===== src/VoteProcessor.antt =====
-- program/src/vote_processor.rs: the votes and the credits they earn. The `&mut VoteState` of the
-- source is the state of `Exec VoteState`.
pub mod UnitTests
pub mod Credits
pub mod Votes
use alpenglow_vote.Base.{
  ℕ, ◌+◌, ◌-◌, Bool, true, false, ◌&&◌, Option, none, some, ltb, leb, ◌==◌, ◌/=◌, if◌then◌else◌,
}
use alpenglow_vote.Word.{saturating_add, saturating_sub}
use alpenglow_vote.Error.{
  ProgramError, missing_required_signature, from_vote_error, missing_slot_hashes_sysvar,
  replay_bank_hash_mismatch, skip_slot_present, skip_slot_exceeds_current_slot,
  slot_hashes_missing_key, version_mismatch,
}
use alpenglow_vote.Exec.{
  Outcome, ok, err, panic, Exec, ◌>>=◌, ◌>>◌, lift, ok_or, gets, fail_if, modify,
}
use alpenglow_vote.Records.{Pubkey, Hash, Slot, Epoch}
use alpenglow_vote.Records.Getters.{
  epoch_credit_epoch, epoch_credit_credits, epoch_credit_prev_credits,
}
use alpenglow_vote.Records.EpochCredit
use alpenglow_vote.Records.EpochCredit.{EpochCredit}
use alpenglow_vote.InstructionData.{NotarizationVoteInstructionData}
use alpenglow_vote.State.{VoteState}
use alpenglow_vote.Platform.{Platform, Clock, SlotHashes}
use alpenglow_vote.Account.{Store, borrow_mut_data, cast_mut}

abbrev pub current_notarize_vote_version : ℕ
current_notarize_vote_version = 1

abbrev pub vote_credits_grace_slots : ℕ
vote_credits_grace_slots = 2

abbrev pub vote_credits_maximum_per_slot : ℕ
vote_credits_maximum_per_slot = 16

unfoldable pub latency_to_credits : ℕ → ℕ
unfolding saturating_add saturating_sub
latency_to_credits latency =
    let kink_lo = vote_credits_grace_slots in
    let kink_hi = vote_credits_maximum_per_slot + vote_credits_grace_slots - 1 in
    if leb latency kink_lo
    then vote_credits_maximum_per_slot
    else if ltb kink_lo latency && leb latency kink_hi
    then saturating_sub (saturating_add kink_hi 1) latency
    else 1

-- `set_credits` on the `EpochCredit` alone.
unfoldable pub earn : Epoch → ℕ → EpochCredit → EpochCredit
earn epoch earned_credits c =
    if epoch == epoch_credit_epoch c
    then EpochCredit.set_credits (saturating_add (epoch_credit_credits c) earned_credits) c
    else let prev_credits = saturating_add (epoch_credit_prev_credits c) (epoch_credit_credits c) in
      EpochCredit.set_credits (saturating_add earned_credits prev_credits)
        (EpochCredit.set_prev_credits prev_credits (EpochCredit.set_epoch epoch c))

unfoldable pub set_credits : Epoch → ℕ → Exec VoteState (Unit {0})
set_credits epoch earned_credits =
    modify λ s. record s { epoch_credits = earn epoch earned_credits s.epoch_credits }

unfoldable pub award_credits : Slot → Clock → Exec VoteState (Unit {0})
unfolding set_credits
award_credits vote_slot clock =
    set_credits clock.epoch (latency_to_credits (saturating_sub clock.slot vote_slot))

-- `r.map_err(|_| e)`
abbrev pub map_err : {A : Type 0} → ProgramError → Outcome A → Outcome A
map_err e (ok a) = ok a
map_err e (err _) = err e
map_err e panic = panic

unfoldable pub award_notarization_credits :
    Slot → Hash → Clock → SlotHashes → Exec VoteState (Unit {0})
unfolding award_credits
award_notarization_credits vote_slot bank_hash clock slot_hashes = do
  found ← lift (map_err (from_vote_error missing_slot_hashes_sysvar) (slot_hashes.get vote_slot))
  hash ← ok_or found (from_vote_error slot_hashes_missing_key)
  fail_if (bank_hash /= hash) (from_vote_error replay_bank_hash_mismatch)
  award_credits vote_slot clock

unfoldable pub award_finalization_credits : Slot → Clock → Exec VoteState (Unit {0})
unfolding award_credits
award_finalization_credits vote_slot clock = award_credits vote_slot clock

abbrev is_some : {A : Type 0} → Option A → Bool
is_some none = false
is_some (some _) = true

unfoldable pub award_skip_credits : Slot → Clock → SlotHashes → Exec VoteState (Unit {0})
unfolding award_credits
award_skip_credits skip_slot clock slot_hashes = do
  fail_if (leb clock.slot skip_slot) (from_vote_error skip_slot_exceeds_current_slot)
  hash ← lift (map_err (from_vote_error missing_slot_hashes_sysvar) (slot_hashes.get skip_slot))
  fail_if (is_some hash) (from_vote_error skip_slot_present)
  award_credits skip_slot clock

-- The handlers below the cast: what a vote does to the `VoteState`.
unfoldable pub notarize_state :
    Pubkey → Clock → SlotHashes → NotarizationVoteInstructionData → Exec VoteState (Unit {0})
unfolding award_notarization_credits
notarize_state vote_authority clock slot_hashes vote = do
  fail_if (vote.version /= current_notarize_vote_version) (from_vote_error version_mismatch)
  voter ← gets λ s. s.authorized_voter.voter
  fail_if (voter /= vote_authority) missing_required_signature
  award_notarization_credits vote.slot vote.replayed_bank_hash clock slot_hashes

unfoldable pub finalize_state : Pubkey → Clock → Slot → Exec VoteState (Unit {0})
unfolding award_finalization_credits
finalize_state vote_authority clock slot = do
  voter ← gets λ s. s.authorized_voter.voter
  fail_if (voter /= vote_authority) missing_required_signature
  award_finalization_credits slot clock

unfoldable pub skip_state : Pubkey → Clock → SlotHashes → Slot → Exec VoteState (Unit {0})
unfolding award_skip_credits
skip_state vote_authority clock slot_hashes slot = do
  voter ← gets λ s. s.authorized_voter.voter
  fail_if (voter /= vote_authority) missing_required_signature
  award_skip_credits slot clock slot_hashes

module _ (P : Platform) where
  unfoldable pub process_notarization_vote :
      ℕ → Pubkey → Clock → SlotHashes → NotarizationVoteInstructionData → Exec Store (Unit {0})
  process_notarization_vote vote_account vote_authority clock slot_hashes vote =
      borrow_mut_data panic vote_account
        (cast_mut P panic (notarize_state vote_authority clock slot_hashes vote))

  unfoldable pub process_finalization_vote : ℕ → Pubkey → Clock → Slot → Exec Store (Unit {0})
  process_finalization_vote vote_account vote_authority clock slot =
      borrow_mut_data panic vote_account
        (cast_mut P panic (finalize_state vote_authority clock slot))

  unfoldable pub process_skip_vote : ℕ → Pubkey → Clock → SlotHashes → Slot → Exec Store (Unit {0})
  process_skip_vote vote_account vote_authority clock slot_hashes slot =
      borrow_mut_data panic vote_account
        (cast_mut P panic (skip_state vote_authority clock slot_hashes slot))
