-- ===== src/VoteProcessor/UnitTests/Latencies.antt =====
-- The unit tests at the end of program/src/vote_processor.rs, for other latencies than those that
-- they are run at.
use alpenglow_vote.Base.{ℕ, ◌+◌, ◌-◌, ◌/◌, ◌≤◌, ◌<◌, ◌≡◌, true, refl, arith}
use alpenglow_vote.Word.{saturating_add, saturating_sub, saturating_mul, checked_sub}
use alpenglow_vote.Records.{Pubkey, Slot, Epoch, BlsPubkey}
use alpenglow_vote.State.{new}
use alpenglow_vote.VoteProcessor.Credits.{latency_to_credits_bounds}
use alpenglow_vote.VoteProcessor.{
  latency_to_credits, set_credits, award_credits, award_skip_credits, earn,
}
use alpenglow_vote.VoteProcessor.UnitTests.{
  epoch_to_starting_slot, setup_vote_state,
  test_award_credits_vote_epoch_equals_clock_epoch_intermediate,
  test_award_credits_vote_epoch_equals_epoch_init,
  test_award_credits_vote_epoch_greater_than_clock_epoch, test_latency_to_credits_max_credits,
  test_latency_to_credits_min, test_latency_to_credits_ramp_down,
  test_process_notarization_finalization_credits_simple,
  test_process_skip_credits_vote_slot_cannot_be_after_clock_slot,
}

module _ (node voter withdrawer : Pubkey) (bls_pubkey : BlsPubkey) (get_epoch : Slot → Epoch)
    (schedule : (slot : Slot) → 524256 ≤ slot → get_epoch slot ≡ 14 + (slot - 524256) / 432000)
    (latency : ℕ) (fits : latency < 432000) where
  init_passes :
      test_award_credits_vote_epoch_equals_epoch_init node voter withdrawer bls_pubkey get_epoch
        latency
      ≡ true
  unfolding test_award_credits_vote_epoch_equals_epoch_init epoch_to_starting_slot setup_vote_state
      new set_credits earn saturating_add saturating_sub saturating_mul
  init_passes = ground (arith, (latency_to_credits_bounds latency).1)

  intermediate_passes :
      test_award_credits_vote_epoch_equals_clock_epoch_intermediate node voter withdrawer bls_pubkey
        get_epoch latency
      ≡ true
  unfolding test_award_credits_vote_epoch_equals_clock_epoch_intermediate epoch_to_starting_slot
      setup_vote_state new set_credits earn saturating_add saturating_sub saturating_mul
  intermediate_passes = grind (
    arith,
    schedule 105068256 (omega arith),
    schedule (105068256 + latency) (omega arith),
    (latency_to_credits_bounds latency).1,
  )

  greater_passes :
      1 ≤ latency
      → test_award_credits_vote_epoch_greater_than_clock_epoch node voter withdrawer bls_pubkey
          get_epoch latency
        ≡ true
  unfolding test_award_credits_vote_epoch_greater_than_clock_epoch epoch_to_starting_slot
      setup_vote_state new set_credits earn saturating_add saturating_sub saturating_mul
  greater_passes h = grind (
    arith,
    schedule 105068256 (omega arith),
    schedule (105068256 - latency) (omega arith),
    (latency_to_credits_bounds latency).1,
  )

  simple_passes :
      test_process_notarization_finalization_credits_simple node voter withdrawer bls_pubkey
        get_epoch latency
      ≡ true
  unfolding test_process_notarization_finalization_credits_simple epoch_to_starting_slot
      setup_vote_state new award_credits set_credits earn saturating_add saturating_sub
      saturating_mul checked_sub
  simple_passes = ground (arith, (latency_to_credits_bounds latency).1)

  skip_passes :
      test_process_skip_credits_vote_slot_cannot_be_after_clock_slot node voter withdrawer
        bls_pubkey get_epoch
      ≡ true
  unfolding test_process_skip_credits_vote_slot_cannot_be_after_clock_slot epoch_to_starting_slot
      setup_vote_state new award_skip_credits award_credits set_credits latency_to_credits earn
      saturating_add saturating_sub saturating_mul
  skip_passes = refl

  -- The unit tests of the credits pass, and not only for the latencies that they are run at: they
  -- pass for every one from 1 to 431999, an epoch's slots less one, if `get_epoch` counts epochs of
  -- 432000 slots from epoch 14 at slot 524256 on.
  pub unit_tests_pass :
      1 ≤ latency
      → (test_latency_to_credits_max_credits ≡ true)
        × (test_latency_to_credits_ramp_down ≡ true)
        × (test_latency_to_credits_min ≡ true)
        × (test_award_credits_vote_epoch_equals_epoch_init node voter withdrawer bls_pubkey
              get_epoch latency
            ≡ true)
        × (test_award_credits_vote_epoch_equals_clock_epoch_intermediate node voter withdrawer
              bls_pubkey get_epoch latency
            ≡ true)
        × (test_award_credits_vote_epoch_greater_than_clock_epoch node voter withdrawer bls_pubkey
              get_epoch latency
            ≡ true)
        × (test_process_skip_credits_vote_slot_cannot_be_after_clock_slot node voter withdrawer
              bls_pubkey get_epoch
            ≡ true)
        × (test_process_notarization_finalization_credits_simple node voter withdrawer bls_pubkey
              get_epoch latency
            ≡ true)
  unfolding test_latency_to_credits_max_credits test_latency_to_credits_ramp_down
      test_latency_to_credits_min latency_to_credits saturating_add saturating_sub
  unit_tests_pass h = (
    refl,
    refl,
    refl,
    init_passes,
    intermediate_passes,
    greater_passes h,
    skip_passes,
    simple_passes,
  )
