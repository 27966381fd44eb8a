-- ===== src/VoteProcessor/UnitTests.antt =====
-- The unit tests at the end of program/src/vote_processor.rs, as functions of their parameter: each
-- is the conjunction of the test's assertions.
pub mod Latencies
use alpenglow_vote.Base.{
  ℕ, zero, suc, ◌+◌, ◌-◌, ◌/◌, ◌≤◌, ◌<◌, ◌≡◌, Bool, true, false, ◌&&◌, ◌==◌, none, some, refl,
  arith, Option,
}
use alpenglow_vote.Word.{saturating_add, saturating_sub, saturating_mul, checked_sub}
use alpenglow_vote.Exec.{Outcome, ok}
use alpenglow_vote.Records.{Pubkey, Slot, Epoch, BlsPubkey}
use alpenglow_vote.Records.EpochCredit
use alpenglow_vote.State.{VoteState, new}
use alpenglow_vote.Platform.{Clock, SlotHashes}
use alpenglow_vote.VoteProcessor.{
  latency_to_credits, set_credits, award_credits, award_skip_credits, vote_credits_grace_slots,
  vote_credits_maximum_per_slot, earn,
}

-- `assert!(r.is_ok())`
abbrev is_ok : Outcome (Unit {0}) → Bool
is_ok (ok _) = true
is_ok _ = false

-- `(lo..=hi).all(p)`, over `n` values from `lo` on
abbrev all_from : ℕ → ℕ → (ℕ → Bool) → Bool
all_from zero lo p = true
all_from (suc n) lo p = p lo && all_from n (lo + 1) p

unfoldable pub epoch_to_starting_slot : Epoch → Slot
unfolding saturating_add saturating_sub saturating_mul
epoch_to_starting_slot epoch =
    saturating_add (saturating_mul (saturating_sub epoch 14) 432000) 524256

pub test_latency_to_credits_max_credits : Bool
unfolding latency_to_credits
test_latency_to_credits_max_credits =
    all_from (vote_credits_grace_slots + 1) 0
      λ latency. vote_credits_maximum_per_slot == latency_to_credits latency

pub test_latency_to_credits_ramp_down : Bool
unfolding latency_to_credits
test_latency_to_credits_ramp_down =
    all_from (vote_credits_maximum_per_slot - 1) 3
      λ latency. (vote_credits_maximum_per_slot - (latency - 2)) == latency_to_credits latency

pub test_latency_to_credits_min : Bool
unfolding latency_to_credits
test_latency_to_credits_min =
    1 == latency_to_credits 18
    && 1 == latency_to_credits 20
    && 1 == latency_to_credits 100
    && 1 == latency_to_credits 1000
    && 1 == latency_to_credits 10000
    && 1 == latency_to_credits 100000

-- The keys are fresh in each run; `get_epoch` is that of the SDK's default `EpochSchedule`.
module _ (node voter withdrawer : Pubkey) (bls_pubkey : BlsPubkey) (get_epoch : Slot → Epoch) where
  unfoldable pub setup_vote_state : Clock → VoteState
  unfolding new
  setup_vote_state clock =
      new
        (record {
          node_pubkey = node;
          authorized_voter = voter;
          authorized_withdrawer = withdrawer;
          commission = 0;
          bls_pubkey = bls_pubkey;
        })
        clock.epoch

  -- the clock of the tests, with the fields that are read
  abbrev clock_at : Slot → Clock
  clock_at slot = record { slot = slot; epoch = 256; leader_schedule_epoch = 0 }

  -- `epoch`, `prev_credits` and `credits` of a vote state
  abbrev has_credits : ℕ → ℕ → ℕ → VoteState → Bool
  has_credits epoch prev_credits credits s =
      epoch == s.epoch_credits.epoch
      && prev_credits == s.epoch_credits.prev_credits
      && credits == s.epoch_credits.credits

  pub test_award_credits_vote_epoch_equals_epoch_init : ℕ → Bool
  unfolding epoch_to_starting_slot setup_vote_state set_credits saturating_add saturating_sub
  test_award_credits_vote_epoch_equals_epoch_init latency =
      let clock = clock_at (saturating_add (epoch_to_starting_slot 256) latency) in
      let vote_state = setup_vote_state clock in
      let vote_slot = epoch_to_starting_slot 256 in
      let expected_earned_credits = latency_to_credits latency in
      let (r, left) = set_credits clock.epoch expected_earned_credits vote_state in
      has_credits 0 0 0 vote_state
      && is_ok r
      && latency == saturating_sub clock.slot vote_slot
      && has_credits 256 0 expected_earned_credits left

  pub test_award_credits_vote_epoch_equals_clock_epoch_intermediate : ℕ → Bool
  unfolding epoch_to_starting_slot setup_vote_state set_credits saturating_add saturating_sub
  test_award_credits_vote_epoch_equals_clock_epoch_intermediate latency =
      let clock = clock_at (saturating_add (epoch_to_starting_slot 256) latency) in
      let vote_slot = epoch_to_starting_slot 256 in
      let vote_state = record (setup_vote_state clock) {
        epoch_credits = EpochCredit.new 256 123 234;
      } in
      let expected_earned_credits = latency_to_credits (saturating_sub clock.slot vote_slot) in
      let (r, left) = set_credits clock.epoch expected_earned_credits vote_state in
      256 == get_epoch clock.slot
      && 256 == get_epoch vote_slot
      && is_ok r
      && latency == saturating_sub clock.slot vote_slot
      && has_credits 256 234 (saturating_add expected_earned_credits 123) left

  pub test_award_credits_vote_epoch_greater_than_clock_epoch : ℕ → Bool
  unfolding epoch_to_starting_slot setup_vote_state set_credits saturating_add saturating_sub
  test_award_credits_vote_epoch_greater_than_clock_epoch latency =
      let clock = clock_at (epoch_to_starting_slot 256) in
      let vote_slot = saturating_sub (epoch_to_starting_slot 256) latency in
      let vote_state = record (setup_vote_state clock) {
        epoch_credits = EpochCredit.new 12 234 123;
      } in
      let expected_earned_credits = latency_to_credits (saturating_sub clock.slot vote_slot) in
      let (r, left) = set_credits clock.epoch expected_earned_credits vote_state in
      255 == get_epoch vote_slot
      && 256 == get_epoch clock.slot
      && is_ok r
      && latency == saturating_sub clock.slot vote_slot
      && has_credits 256 (123 + 234) (saturating_add expected_earned_credits (123 + 234)) left

  -- `mock_slot_hash_entries(vec![])`
  abbrev no_entries : SlotHashes
  no_entries = record { get = λ slot. ok none }

  pub test_process_skip_credits_vote_slot_cannot_be_after_clock_slot : Bool
  unfolding epoch_to_starting_slot setup_vote_state award_skip_credits
  test_process_skip_credits_vote_slot_cannot_be_after_clock_slot =
      let clock = clock_at (epoch_to_starting_slot 256) in
      let vote_state = setup_vote_state clock in
      let (r, left) = award_skip_credits (clock.slot - 5) clock no_entries vote_state in
      0 == vote_state.epoch_credits.credits
      && 0 == vote_state.epoch_credits.prev_credits
      && is_ok r
      && 13 == left.epoch_credits.credits
      && 0 == left.epoch_credits.prev_credits

  -- after `clock.slot.checked_sub(latency).unwrap()`, which panics on `none`
  abbrev simple_at : Clock → ℕ → Option Slot → Bool
  simple_at clock latency none = false
  simple_at clock latency (some vote_slot) =
      let vote_state = setup_vote_state clock in
      let (r, left) = award_credits vote_slot clock vote_state in
      0 == vote_state.epoch_credits.credits
      && 0 == vote_state.epoch_credits.prev_credits
      && is_ok r
      && latency_to_credits latency == left.epoch_credits.credits
      && 0 == left.epoch_credits.prev_credits

  pub test_process_notarization_finalization_credits_simple : ℕ → Bool
  unfolding epoch_to_starting_slot setup_vote_state award_credits checked_sub
  test_process_notarization_finalization_credits_simple latency =
      let clock = clock_at (epoch_to_starting_slot 256) in
      simple_at clock latency (checked_sub clock.slot latency)
