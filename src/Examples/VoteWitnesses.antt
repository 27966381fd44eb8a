-- ===== src/Examples/VoteWitnesses.antt =====
-- Theorems on the handlers of program/src/vote_processor.rs, applied to the sample accounts.
use alpenglow_vote.Base.{
  if◌then◌else◌, ◌==◌, ℕ, ◌+◌, ◌-◌, ◌*◌, ◌^◌, ◌<◌, ◌≡◌, ◌∷◌, [], List, refl, arith, some, none, ◌↔◌,
}
use alpenglow_vote.Word.{saturating_add}
use alpenglow_vote.Exec.{ok, after}
use alpenglow_vote.InstructionData.{NotarizationVoteInstructionData}
use alpenglow_vote.VoteProcessor.{
  notarize_state, finalize_state, skip_state, latency_to_credits, earn,
}
use alpenglow_vote.VoteProcessor.Votes.{
  notarize_state_iff, finalize_state_iff, skip_state_iff, notarize-skip_exclusive,
  finalize_times_pays, finalize_times, credited, paid,
}
use alpenglow_vote.VoteProcessor.Credits.{
  earn_all-IsTally, IsTally, earn_all, credits_double, one_vote_an_epoch,
}
use alpenglow_vote.Platform.{Clock, SlotHashes}
use alpenglow_vote.Examples.Accounts.{voting, clock, hashes}

-- a notarization of slot 97 with the hash 11 that the sample slot hashes have for it
abbrev notarized : NotarizationVoteInstructionData
notarized = record {
  version = 1;
  slot = 97;
  block_id = 21;
  replayed_slot = 0;
  replayed_bank_hash = 11;
}

notarize_state_iff_example :
    let (r, t) = notarize_state 9 clock hashes notarized voting in
    ((r ≡ ok tt) ↔ (
      (voting.authorized_voter.voter ≡ 9)
      × (notarized.version ≡ 1)
      × (hashes.get 97 ≡ ok (some 11))))
    × (t ≡ after r voting (credited clock 97 voting))
notarize_state_iff_example = notarize_state_iff 9 clock hashes notarized voting

finalize_state_iff_example :
    let (r, t) = finalize_state 9 clock 97 voting in
    ((r ≡ ok tt) ↔ (voting.authorized_voter.voter ≡ 9))
    × (t ≡ after r voting (credited clock 97 voting))
finalize_state_iff_example = finalize_state_iff 9 clock 97 voting

skip_state_iff_example :
    let (r, t) = skip_state 9 clock hashes 90 voting in
    ((r ≡ ok tt)
      ↔ ((voting.authorized_voter.voter ≡ 9) × (90 < clock.slot) × (hashes.get 90 ≡ ok none)))
    × (t ≡ after r voting (credited clock 90 voting))
skip_state_iff_example = skip_state_iff 9 clock hashes 90 voting

-- Two slots later the slot hashes still have slot 97.
abbrev later_clock : Clock
later_clock = record { slot = 102; epoch = 5; leader_schedule_epoch = 6 }

abbrev later_hashes : SlotHashes
later_hashes = record {
  get = λ slot. if slot == 97 then ok (some 11) else if slot == 101 then ok (some 13) else ok none;
}

notarize-skip_exclusive_example : ¬ ((skip_state 9 later_clock later_hashes 97 voting).0 ≡ ok tt)
notarize-skip_exclusive_example =
    notarize-skip_exclusive 9 9 clock later_clock hashes later_hashes notarized voting voting refl
      ((notarize_state_iff 9 clock hashes notarized voting).0.1 (refl, refl, refl))

-- Once the slot hashes have dropped slot 97, the voter's skip of this notarized slot is accepted too.
skip_state-forgotten :
    (skip_state 9 later_clock (record { get = λ slot. ok none }) 97 (credited clock 97 voting)).0
    ≡ ok tt
unfolding credited
skip_state-forgotten =
    (skip_state_iff 9 later_clock (record { get = λ slot. ok none }) 97
        (credited clock 97 voting)).0.1
      (refl, omega arith, refl)

finalize_times_pays_example :
    finalize_times 3 9 clock 97 voting
    ≡ (ok tt, paid (3 * latency_to_credits (clock.slot - 97)) voting)
finalize_times_pays_example =
    finalize_times_pays 3 clock 97 voting refl (unfold latency_to_credits in omega arith)

-- two votes in epoch 5, which has earned 10, then one in epoch 6
abbrev votes : List (ℕ × ℕ)
votes = (5, 16) ∷ (5, 15) ∷ (6, 14) ∷ []

earn_all-IsTally_example : IsTally 14 (earn_all votes voting.epoch_credits)
earn_all-IsTally_example =
    earn_all-IsTally votes 10 voting.epoch_credits
      (unfold earn saturating_add in (omega arith, (omega arith, (omega arith, tt))))
      (record { difference = refl })

-- five epochs of one full vote
credits_double_example :
    let c = one_vote_an_epoch 16 5 in
    (c.epoch ≡ 5) × (c.credits ≡ 16 * 2 ^ 4) × (c.prev_credits + 16 ≡ 16 * 2 ^ 4)
credits_double_example = credits_double 16 4 (omega arith)
