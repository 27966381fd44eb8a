-- ===== src/Vote/Kinds.antt =====
-- The predicates on the kinds of votes in program/src/vote.rs, and the instruction numbers that
-- votes are sent with.
use alpenglow_vote.Base.{◌≡◌, ◌↔◌, Bool, true, false, arith}
use alpenglow_vote.Exec.{ok}
use alpenglow_vote.Records.{Pubkey}
use alpenglow_vote.Platform.{Platform}
use alpenglow_vote.Instruction.{
  VoteInstruction, decode_instruction_type, encode_instruction, encode_instruction_with_seed, to_u8,
  try_from,
}
use alpenglow_vote.Builders
use alpenglow_vote.Vote.{
  Vote, is_notarization, is_finalize, is_skip, is_notarize_fallback, is_skip_fallback,
}
use alpenglow_vote.Vote.Wire.{to_vote_instruction}

-- The predicate for each instruction.
abbrev pub is_kind : VoteInstruction → Vote → Bool
is_kind VoteInstruction.notarize v = is_notarization v
is_kind VoteInstruction.finalize v = is_finalize v
is_kind VoteInstruction.skip v = is_skip v
is_kind VoteInstruction.notarize_fallback v = is_notarize_fallback v
is_kind VoteInstruction.skip_fallback v = is_skip_fallback v
is_kind _ v = false

-- A vote is sent as a given instruction exactly when the predicate of that instruction holds for
-- it.
pub to_vote_instruction-is_kind :
    (P : Platform) (v : Vote) (i : VoteInstruction) (vote_pubkey vote_authority : Pubkey)
    → (decode_instruction_type (to_vote_instruction P v vote_pubkey vote_authority).payload ≡ ok i)
      ↔ (is_kind i v ≡ true)
unfolding to_vote_instruction decode_instruction_type Builders.notarize Builders.finalize
    Builders.skip Builders.notarize_fallback Builders.skip_fallback encode_instruction
    encode_instruction_with_seed to_u8 try_from is_notarization is_finalize is_skip
    is_notarize_fallback is_skip_fallback
to_vote_instruction-is_kind P v i key authority = ground arith
