-- ===== src/Examples/AccountWitnesses.antt =====
-- Theorems on accounts made for clients and tests, program/src/state.rs and the unit tests of
-- program/src/vote_processor.rs, at concrete arguments.
use alpenglow_vote.Base.{ℕ, zero, suc, ◌+◌, ◌-◌, ◌/◌, ◌≡◌, ◌∷◌, [], refl, arith, true, some, length}
use alpenglow_vote.Exec.{ok}
use alpenglow_vote.Pod.{Bytes}
use alpenglow_vote.Records.{Pubkey, Slot, Epoch}
use alpenglow_vote.State.{new_for_tests, is_initialized, get_authorized_voter}
use alpenglow_vote.State.Codec.{size, deserialize}
use alpenglow_vote.State.SharedAccount.{
  AccountSharedData, create_account_with_authorized, deserialize-create_account_with_authorized,
}
use alpenglow_vote.Examples.Sample.{sample}
use alpenglow_vote.VoteProcessor.UnitTests.{
  test_award_credits_vote_epoch_equals_clock_epoch_intermediate,
  test_award_credits_vote_epoch_equals_epoch_init,
  test_award_credits_vote_epoch_greater_than_clock_epoch, test_latency_to_credits_max_credits,
  test_latency_to_credits_min, test_latency_to_credits_ramp_down,
  test_process_notarization_finalization_credits_simple,
  test_process_skip_credits_vote_slot_cannot_be_after_clock_slot,
}
use alpenglow_vote.VoteProcessor.UnitTests.Latencies.{unit_tests_pass}

zeros : ℕ → Bytes
zeros zero = []
zeros (suc n) = 0 ∷ zeros n

length-zeros : (n : ℕ) → length (zeros n) ≡ n
unfolding zeros
length-zeros zero = refl
length-zeros (suc n) = omega (arith, length-zeros n)

abbrev blank : ℕ → ℕ → Pubkey → AccountSharedData
blank lamports space owner = record { lamports = lamports; contents = zeros space; owner = owner }

deserialize-create_account_with_authorized_example :
    let s = new_for_tests 5 9 0 7 10 123 in
    (written : Bytes) × (create_account_with_authorized sample blank 5 9 7 10 1000 123
      ≡ ok (record (blank 1000 (size sample) sample.id) { contents = written }))
    × (deserialize sample written ≡ ok s)
    × (is_initialized s ≡ true)
    × ((epoch : Epoch) → get_authorized_voter s epoch ≡ some 9)
unfolding sample
deserialize-create_account_with_authorized_example =
    deserialize-create_account_with_authorized sample blank 5 9 7 10 1000 123 (omega arith)
      (omega arith) (omega arith) (omega arith) (omega arith) (length-zeros (size sample))

-- the epochs of the default schedule, from epoch 14 on
abbrev get_epoch : Slot → Epoch
get_epoch slot = 14 + (slot - 524256) / 432000

unit_tests_pass_example :
    (test_latency_to_credits_max_credits ≡ true)
    × (test_latency_to_credits_ramp_down ≡ true)
    × (test_latency_to_credits_min ≡ true)
    × (test_award_credits_vote_epoch_equals_epoch_init 5 9 7 123 get_epoch 20 ≡ true)
    × (test_award_credits_vote_epoch_equals_clock_epoch_intermediate 5 9 7 123 get_epoch 20 ≡ true)
    × (test_award_credits_vote_epoch_greater_than_clock_epoch 5 9 7 123 get_epoch 20 ≡ true)
    × (test_process_skip_credits_vote_slot_cannot_be_after_clock_slot 5 9 7 123 get_epoch ≡ true)
    × (test_process_notarization_finalization_credits_simple 5 9 7 123 get_epoch 20 ≡ true)
unit_tests_pass_example =
    unit_tests_pass 5 9 7 123 get_epoch (λ slot h. refl) 20 (omega arith) (omega arith)
