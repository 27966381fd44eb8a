-- ===== src/Examples/WireWitnesses.antt =====
-- Theorems on program/src/instruction.rs, vote.rs and `initialize_account` of processor.rs, applied
-- to the sample platform.
use alpenglow_vote.Base.{ℕ, ◌<◌, ◌≡◌, ◌∷◌, [], ◌↔◌, refl, arith, true, false}
use alpenglow_vote.Exec.{ok, panic, after}
use alpenglow_vote.Pod.{Bytes}
use alpenglow_vote.InstructionData.{AuthorizeInstructionData, InitializeAccountInstructionData}
use alpenglow_vote.State.{new, default}
use alpenglow_vote.Account.{Store}
use alpenglow_vote.Account.Laws.{write, Holds}
use alpenglow_vote.Instruction.{
  VoteInstruction, encode_instruction, decode_instruction_type, decode_instruction_data,
}
use alpenglow_vote.Instruction.RoundTrip.{decode-encode}
use alpenglow_vote.Vote.{Vote, NotarizationVote}
use alpenglow_vote.Vote.Wire.{
  is_simple_vote, deserialize_simple_vote, to_vote_instruction, sent,
  deserialize-to_vote_instruction, deserialize-panics_iff,
}
use alpenglow_vote.Processor.{initialize_account}
use alpenglow_vote.Processor.Initialize.{initialize_account_iff}
use alpenglow_vote.Examples.Sample.{u64_size, sample}
use alpenglow_vote.Examples.Accounts.{clock, store_of}

abbrev to_voter : AuthorizeInstructionData
to_voter = record { new_authorized_pubkey = 8; authority_type = 0 }

abbrev encoded : Bytes
encoded =
    (encode_instruction sample sample.pod_authorize [] VoteInstruction.authorize to_voter).payload

authorize_size : sample.pod_authorize.size < 18446744073709551615
unfolding sample
authorize_size = omega arith

decode-encode_example :
    (decode_instruction_type encoded ≡ ok VoteInstruction.authorize)
    × (decode_instruction_data sample sample.pod_authorize encoded ≡ ok to_voter)
decode-encode_example =
    decode-encode sample sample.pod_authorize [] VoteInstruction.authorize to_voter (omega arith)
      authorize_size

abbrev vote : NotarizationVote
vote = record { slot = 97; block_id = 21; replayed_slot = 96; replayed_bank_hash = 11 }

abbrev vote_payload : Bytes
vote_payload = (to_vote_instruction sample (Vote.notarize vote) 1 9).payload

notarization_size : sample.pod_notarization.size < 18446744073709551615
unfolding sample
notarization_size = omega arith

deserialize-to_vote_instruction_example :
    (is_simple_vote vote_payload ≡ ok true)
    × (deserialize_simple_vote sample vote_payload ≡ ok (sent sample (Vote.notarize vote)))
deserialize-to_vote_instruction_example =
    deserialize-to_vote_instruction sample notarization_size u64_size (Vote.notarize vote) 1 9
      (omega arith, omega arith, omega arith)

deserialize-panics_iff_example :
    (deserialize_simple_vote sample (5 ∷ 1 ∷ []) ≡ panic) ↔ (is_simple_vote (5 ∷ 1 ∷ []) ≡ ok false)
deserialize-panics_iff_example = deserialize-panics_iff sample (5 ∷ 1 ∷ [])

abbrev initial : InitializeAccountInstructionData
initial = record {
  node_pubkey = 5;
  authorized_voter = 9;
  authorized_withdrawer = 7;
  commission = 10;
  bls_pubkey = 123;
}

abbrev empty : Store
empty = store_of default

empty-Holds : Holds sample 0 default empty
unfolding sample
empty-Holds = record {
  idle = record { lamports_free = refl; contents_free = refl };
  stored = refl;
  in_range = omega arith;
}

initialize_account_iff_example :
    let (r, st') = initialize_account sample 0 initial clock empty in
    ((r ≡ ok tt) ↔ (default.version ≡ 0))
    × ((k : ℕ) → st' k ≡ after r (empty k) (write sample 0 (new initial 5) empty k))
initialize_account_iff_example =
    initialize_account_iff sample 0 initial clock default empty empty-Holds
