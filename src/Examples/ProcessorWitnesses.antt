-- ===== src/Examples/ProcessorWitnesses.antt =====
-- Theorems on the whole of `process_instruction`, program/src/processor.rs, applied to the sample
-- accounts.
use alpenglow_vote.Base.{ℕ, ◌<◌, ◌≡◌, ◌≢◌, ◌∷◌, ◌^◌, [], refl, ap, arith}
use alpenglow_vote.Word.{
  saturating_add, saturating_sub, saturating_mul, checked_add, checked_sub, checked_rem,
}
use alpenglow_vote.Account.{
  borrow_data, borrow_mut_data, borrow_mut_lamports, try_lamports, cast_mut, cast,
  set_vote_account_state,
}
use alpenglow_vote.VoteProcessor.{process_finalization_vote, finalize_state}
use alpenglow_vote.Processor.{dispatch, next_signer, process_finalize}
use alpenglow_vote.Examples.Codecs.{from_le, pod_pair, pod_as, pod_option}
use alpenglow_vote.Examples.Layouts.{
  pod_vote_state, pod_voter, pod_next_voter, pod_credit, pod_initialize, pod_authorize,
  pod_with_seed, pod_checked_with_seed, pod_notarization,
}
use alpenglow_vote.Error.{missing_required_signature}
use alpenglow_vote.Exec.{ok, err}
use alpenglow_vote.Pod.{Bytes, AreBytes}
use alpenglow_vote.State.{VoteState}
use alpenglow_vote.Platform.{AccountInfo, Clock}
use alpenglow_vote.Account.Laws.{Holds, write}
use alpenglow_vote.Spec.{Permitted}
use alpenglow_vote.Instruction.{encode_instruction, encode_instruction_with_seed, to_u8}
use alpenglow_vote.Instruction.{
  decode_instruction_type, decode_instruction_data, decode_instruction_data_with_seed,
  pod_from_bytes, try_from,
}
use alpenglow_vote.Vote.{FinalizationVote}
use alpenglow_vote.Builders
use alpenglow_vote.Vote
use alpenglow_vote.Vote.Wire.{to_vote_instruction}
use alpenglow_vote.VoteProcessor.Votes.{credited}
use alpenglow_vote.Processor.{process_instruction}
use alpenglow_vote.Processor.Refines.{Scene}
use alpenglow_vote.Processor.Safety.{run, process_instruction-Permitted, process_instruction_atomic}
use alpenglow_vote.Processor.EndToEnd.{process-to_vote_instruction}
use alpenglow_vote.Examples.Codecs.{to_le, pod_le}
use alpenglow_vote.Examples.Sample.{sample, u64_size}
use alpenglow_vote.Examples.Accounts.{
  voting, vote_account, voter_account, withdrawer_account, clock, hashes, sysvars, store,
  store-IsIdle, store-Holds,
}

abbrev pub vote : FinalizationVote
vote = record { slot = 97 }

abbrev pub finalization : Bytes
finalization = (to_vote_instruction sample (Vote.finalize vote) 1 9).payload

pub notarization_size : sample.pod_notarization.size < 18446744073709551615
unfolding sample pod_notarization pod_as pod_pair pod_le
notarization_size = omega arith

process-to_vote_instruction_example :
    process_instruction sample sysvars 77 (vote_account ∷ voter_account ∷ []) finalization store
    ≡ (ok tt, write sample 0 (credited clock 97 voting) store)
unfolding sample to_vote_instruction Builders.finalize encode_instruction Vote.slot
process-to_vote_instruction_example =
    process-to_vote_instruction sample sysvars clock hashes vote_account voter_account voting store
      store-Holds notarization_size u64_size refl refl refl (Vote.finalize vote) (omega arith) tt
      (refl, tt, (refl, refl, tt))

pub own_clock : (c : Clock) → sysvars.clock ≡ ok c → c.epoch < 18446744073709551616
own_clock c e = ground arith

pub finalization-AreBytes : AreBytes finalization
unfolding to_vote_instruction Builders.finalize encode_instruction encode_instruction_with_seed
    to_u8 sample pod_le to_le
finalization-AreBytes = omega arith

-- The finalization, signed by `signer`, is about to run.
abbrev pub scene : (signer : AccountInfo) → signer.key < 2 ^ 256 → Scene
scene signer h = record {
  P = sample;
  sysvars = sysvars;
  account = vote_account;
  iter = signer ∷ [];
  input = finalization;
  s = voting;
  st = store;
  holds = store-Holds;
  idle = store-IsIdle;
  is_input = record {
    bytes = finalization-AreBytes;
    keys = (omega arith, (h, tt));
    clock_u64 = own_clock;
  };
}

abbrev pub by_voter : Scene
by_voter = scene voter_account (omega arith)

abbrev by_withdrawer : Scene
by_withdrawer = scene withdrawer_account (omega arith)

pub voted : run by_voter 77 ≡ (ok tt, write sample 0 (credited clock 97 voting) store)
voted = process-to_vote_instruction_example

pub accepted : (run by_voter 77).0 ≡ ok tt
accepted = ap (λ r. r.0) process-to_vote_instruction_example

refused : (run by_withdrawer 77).0 ≡ err missing_required_signature
unfolding to_vote_instruction Builders.finalize encode_instruction encode_instruction_with_seed
    to_u8 sample pod_vote_state pod_voter pod_next_voter pod_credit pod_initialize pod_authorize
    pod_with_seed pod_checked_with_seed pod_notarization to_le from_le pod_le pod_pair pod_as
    pod_option process_instruction dispatch next_signer decode_instruction_type
    decode_instruction_data decode_instruction_data_with_seed pod_from_bytes try_from saturating_add
    saturating_sub saturating_mul checked_add checked_sub checked_rem borrow_data borrow_mut_data
    borrow_mut_lamports try_lamports cast_mut cast set_vote_account_state process_finalize
    process_finalization_vote finalize_state
refused = refl

process_instruction-Permitted_example :
    ((t : VoteState) × Permitted sample sysvars (vote_account ∷ voter_account ∷ []) voting t
      × Holds sample 0 t (run by_voter 77).1)
    × ((j : ℕ) → vote_account.cell ≢ j → ((run by_voter 77).1 j).contents ≡ (store j).contents)
process_instruction-Permitted_example = process_instruction-Permitted by_voter 77 accepted

-- the withdrawer's key is not that of the voter
process_instruction_atomic_example : ((run by_withdrawer 77).1 0).contents ≡ (store 0).contents
process_instruction_atomic_example =
    process_instruction_atomic by_withdrawer 77 (λ e. cc (e, refused)) 0
