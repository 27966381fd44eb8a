-- ===== src/Vote/Wire.antt =====
-- Votes of program/src/vote.rs as instructions: `is_simple_vote`, `deserialize_simple_vote` and
-- `to_vote_instruction`.
use alpenglow_vote.Base.{ℕ, ◌<◌, ◌≡◌, ◌↔◌, Bool, true, false, arith}
use alpenglow_vote.Word.{IsU64, u64_max}
use alpenglow_vote.Exec.{Outcome, ok, panic}
use alpenglow_vote.Pod.{Bytes}
use alpenglow_vote.Records.{Pubkey, IsBytes32}
use alpenglow_vote.InstructionData.{NotarizationVoteInstructionData, IsNotarizationData}
use alpenglow_vote.Platform.{Platform}
use alpenglow_vote.Instruction.{
  VoteInstruction, Instruction, decode_instruction_type, decode_instruction_data, ◌>>=◌,
}
use alpenglow_vote.Instruction.RoundTrip.{decode-encode}
use alpenglow_vote.Instruction.Decode.{
  decode_instruction_type-ne-panic, decode_instruction_data-ne-panic,
}
use alpenglow_vote.Vote.{
  Vote, notarize, finalize, skip, notarize_fallback, skip_fallback, notarization_internal,
  notarization_fallback_internal, finalization_internal, skip_internal, skip_fallback_internal,
}
use alpenglow_vote.VoteProcessor.{current_notarize_vote_version}
use alpenglow_vote.Builders
use alpenglow_vote.Builders.{vote_accounts}

-- `matches!` on the five kinds of votes
abbrev is_vote : VoteInstruction → Bool
is_vote VoteInstruction.notarize = true
is_vote VoteInstruction.finalize = true
is_vote VoteInstruction.skip = true
is_vote VoteInstruction.notarize_fallback = true
is_vote VoteInstruction.skip_fallback = true
is_vote _ = false

unfoldable pub is_simple_vote : Bytes → Outcome Bool
is_simple_vote instruction_data = do
  instruction_type ← decode_instruction_type instruction_data
  ok (is_vote instruction_type)

module _ (P : Platform) where
  open P use {pod_u64, pod_notarization}

  abbrev deserialize_as : VoteInstruction → Bytes → Outcome Vote
  deserialize_as VoteInstruction.notarize input = do
    d ← decode_instruction_data P pod_notarization input
    ok (notarize (notarization_internal d))
  deserialize_as VoteInstruction.finalize input = do
    slot ← decode_instruction_data P pod_u64 input
    ok (finalize (finalization_internal slot))
  deserialize_as VoteInstruction.skip input = do
    slot ← decode_instruction_data P pod_u64 input
    ok (skip (skip_internal slot))
  deserialize_as VoteInstruction.notarize_fallback input = do
    d ← decode_instruction_data P pod_notarization input
    ok (notarize_fallback (notarization_fallback_internal d))
  deserialize_as VoteInstruction.skip_fallback input = do
    slot ← decode_instruction_data P pod_u64 input
    ok (skip_fallback (skip_fallback_internal slot))
  deserialize_as _ input = panic

  -- The `debug_assert` at its head fails only where the match below panics too.
  unfoldable pub deserialize_simple_vote : Bytes → Outcome Vote
  deserialize_simple_vote instruction_data = do
    instruction_type ← decode_instruction_type instruction_data
    deserialize_as instruction_type instruction_data

  unfoldable pub to_vote_instruction : Vote → Pubkey → Pubkey → Instruction
  to_vote_instruction (notarize vote) vote_pubkey vote_authority =
      Builders.notarize P vote_pubkey vote_authority vote
  to_vote_instruction (finalize vote) vote_pubkey vote_authority =
      Builders.finalize P vote_pubkey vote_authority vote
  to_vote_instruction (skip vote) vote_pubkey vote_authority =
      Builders.skip P vote_pubkey vote_authority vote
  to_vote_instruction (notarize_fallback vote) vote_pubkey vote_authority =
      Builders.notarize_fallback P vote_pubkey vote_authority vote
  to_vote_instruction (skip_fallback vote) vote_pubkey vote_authority =
      Builders.skip_fallback P vote_pubkey vote_authority vote

  -- The slot, hashes and replayed slot of a vote fit their fields.
  abbrev pub IsVote : Vote → Type 0
  IsVote (notarize v) = IsU64 v.slot × IsBytes32 v.block_id × IsBytes32 v.replayed_bank_hash
  IsVote (finalize v) = IsU64 v.slot
  IsVote (skip v) = IsU64 v.slot
  IsVote (notarize_fallback v) =
      IsU64 v.slot × IsBytes32 v.block_id × IsBytes32 v.replayed_bank_hash
  IsVote (skip_fallback v) = IsU64 v.slot

  -- A vote without its replayed slot, which is not sent.
  abbrev pub sent : Vote → Vote
  sent (notarize v) = notarize (record v { replayed_slot = 0 })
  sent (finalize v) = finalize v
  sent (skip v) = skip v
  sent (notarize_fallback v) = notarize_fallback (record v { replayed_slot = 0 })
  sent (skip_fallback v) = skip_fallback v

  -- the data that both notarization builders send
  abbrev pub sent_data : ℕ → ℕ → ℕ → NotarizationVoteInstructionData
  sent_data slot block_id replayed_bank_hash = record {
    version = current_notarize_vote_version;
    slot = slot;
    block_id = block_id;
    replayed_slot = 0;
    replayed_bank_hash = replayed_bank_hash;
  }

  module _ (hn : pod_notarization.size < u64_max) (hs : pod_u64.size < u64_max) where
    -- Where the data of votes is shorter than the largest u64, a vote whose fields are in range,
    -- turned into an instruction, is a simple vote, and reads back as the same vote with a
    -- replayed slot of 0.
    pub deserialize-to_vote_instruction :
        (v : Vote) (vote_pubkey vote_authority : Pubkey)
        → IsVote v
        → let payload = (to_vote_instruction v vote_pubkey vote_authority).payload in
          (is_simple_vote payload ≡ ok true) × (deserialize_simple_vote payload ≡ ok (sent v))
    unfolding is_simple_vote deserialize_simple_vote to_vote_instruction Builders.notarize
        Builders.finalize Builders.skip Builders.notarize_fallback Builders.skip_fallback
        notarization_internal notarization_fallback_internal
    deserialize-to_vote_instruction (notarize v) key authority (h, hb, hh) =
        let d : NotarizationVoteInstructionData =
          sent_data v.slot v.block_id v.replayed_bank_hash in
        let valid : IsNotarizationData d = omega arith in
        let (number, value) =
          decode-encode P pod_notarization (vote_accounts key authority) VoteInstruction.notarize d
            valid hn in
        (ground (arith, number), ground (arith, number, value))
    deserialize-to_vote_instruction (finalize v) key authority h =
        let (number, value) =
          decode-encode P pod_u64 (vote_accounts key authority) VoteInstruction.finalize v.slot h
            hs in
        (ground (arith, number), ground (arith, number, value))
    deserialize-to_vote_instruction (skip v) key authority h =
        let (number, value) =
          decode-encode P pod_u64 (vote_accounts key authority) VoteInstruction.skip v.slot h hs in
        (ground (arith, number), ground (arith, number, value))
    deserialize-to_vote_instruction (notarize_fallback v) key authority (h, hb, hh) =
        let d : NotarizationVoteInstructionData =
          sent_data v.slot v.block_id v.replayed_bank_hash in
        let valid : IsNotarizationData d = omega arith in
        let (number, value) =
          decode-encode P pod_notarization (vote_accounts key authority)
            VoteInstruction.notarize_fallback d valid hn in
        (ground (arith, number), ground (arith, number, value))
    deserialize-to_vote_instruction (skip_fallback v) key authority h =
        let (number, value) =
          decode-encode P pod_u64 (vote_accounts key authority) VoteInstruction.skip_fallback v.slot
            h hs in
        (ground (arith, number), ground (arith, number, value))

  -- `deserialize_simple_vote` panics exactly on the instructions that `is_simple_vote` denies.
  pub deserialize-panics_iff :
      (input : Bytes) → (deserialize_simple_vote input ≡ panic) ↔ (is_simple_vote input ≡ ok false)
  unfolding deserialize_simple_vote is_simple_vote
  deserialize-panics_iff input = ground (
    arith,
    decode_instruction_type-ne-panic input,
    decode_instruction_data-ne-panic P pod_notarization input,
    decode_instruction_data-ne-panic P pod_u64 input,
  )
