-- ===== src/Vote.antt =====
-- program/src/vote.rs: the vote types that clients use, with their constructors and readers.
pub mod Wire
pub mod Kinds
use alpenglow_vote.Base.{ℕ, Bool, true, false, Option, none, some}
use alpenglow_vote.Records.{Hash, Slot}
use alpenglow_vote.InstructionData.{NotarizationVoteInstructionData}

pub record NotarizationVote : Type 0 where
  pub slot : Slot
  pub block_id : Hash
  pub replayed_slot : Slot
  pub replayed_bank_hash : Hash

pub record FinalizationVote : Type 0 where
  pub slot : Slot

pub record SkipVote : Type 0 where
  pub slot : Slot

pub record NotarizationFallbackVote : Type 0 where
  pub slot : Slot
  pub block_id : Hash
  pub replayed_slot : Slot
  pub replayed_bank_hash : Hash

pub record SkipFallbackVote : Type 0 where
  pub slot : Slot

pub data Vote : Type 0 where
  notarize : NotarizationVote → Vote
  finalize : FinalizationVote → Vote
  skip : SkipVote → Vote
  notarize_fallback : NotarizationFallbackVote → Vote
  skip_fallback : SkipFallbackVote → Vote

-- `X::new` of each message, and `Vote::from` it
abbrev pub notarization_new : Slot → Hash → Slot → Hash → NotarizationVote
notarization_new slot block_id replayed_slot replayed_bank_hash = record {
  slot = slot;
  block_id = block_id;
  replayed_slot = replayed_slot;
  replayed_bank_hash = replayed_bank_hash;
}

abbrev pub finalization_new : Slot → FinalizationVote
finalization_new slot = record { slot = slot }

abbrev pub skip_new : Slot → SkipVote
skip_new slot = record { slot = slot }

abbrev pub notarization_fallback_new : Slot → Hash → Slot → Hash → NotarizationFallbackVote
notarization_fallback_new slot block_id replayed_slot replayed_bank_hash = record {
  slot = slot;
  block_id = block_id;
  replayed_slot = replayed_slot;
  replayed_bank_hash = replayed_bank_hash;
}

abbrev pub skip_fallback_new : Slot → SkipFallbackVote
skip_fallback_new slot = record { slot = slot }

abbrev pub from_notarization : NotarizationVote → Vote
from_notarization vote = notarize vote

abbrev pub from_finalization : FinalizationVote → Vote
from_finalization vote = finalize vote

abbrev pub from_skip : SkipVote → Vote
from_skip vote = skip vote

abbrev pub from_notarization_fallback : NotarizationFallbackVote → Vote
from_notarization_fallback vote = notarize_fallback vote

abbrev pub from_skip_fallback : SkipFallbackVote → Vote
from_skip_fallback vote = skip_fallback vote

unfoldable pub new_notarization_vote : Slot → Hash → Hash → Vote
new_notarization_vote slot block_id bank_hash =
    from_notarization (notarization_new slot block_id 0 bank_hash)

unfoldable pub new_finalization_vote : Slot → Vote
new_finalization_vote slot = from_finalization (finalization_new slot)

unfoldable pub new_skip_vote : Slot → Vote
new_skip_vote slot = from_skip (skip_new slot)

unfoldable pub new_notarization_fallback_vote : Slot → Hash → Hash → Vote
new_notarization_fallback_vote slot block_id bank_hash =
    from_notarization_fallback (notarization_fallback_new slot block_id 0 bank_hash)

unfoldable pub new_skip_fallback_vote : Slot → Vote
new_skip_fallback_vote slot = from_skip_fallback (skip_fallback_new slot)

-- the getters of each message
abbrev pub notarization_slot : NotarizationVote → Slot
notarization_slot vote = vote.slot

abbrev pub notarization_block_id : NotarizationVote → Hash
notarization_block_id vote = vote.block_id

abbrev pub notarization_replayed_bank_hash : NotarizationVote → Hash
notarization_replayed_bank_hash vote = vote.replayed_bank_hash

abbrev pub finalization_slot : FinalizationVote → Slot
finalization_slot vote = vote.slot

abbrev pub skip_slot : SkipVote → Slot
skip_slot vote = vote.slot

abbrev pub notarization_fallback_slot : NotarizationFallbackVote → Slot
notarization_fallback_slot vote = vote.slot

abbrev pub notarization_fallback_block_id : NotarizationFallbackVote → Hash
notarization_fallback_block_id vote = vote.block_id

abbrev pub notarization_fallback_replayed_bank_hash : NotarizationFallbackVote → Hash
notarization_fallback_replayed_bank_hash vote = vote.replayed_bank_hash

abbrev pub skip_fallback_slot : SkipFallbackVote → Slot
skip_fallback_slot vote = vote.slot

unfoldable pub slot : Vote → Slot
slot (notarize vote) = notarization_slot vote
slot (finalize vote) = finalization_slot vote
slot (skip vote) = skip_slot vote
slot (notarize_fallback vote) = notarization_fallback_slot vote
slot (skip_fallback vote) = skip_fallback_slot vote

unfoldable pub block_id : Vote → Option Hash
block_id (notarize vote) = some (notarization_block_id vote)
block_id (finalize _) = none
block_id (skip _) = none
block_id (notarize_fallback vote) = some (notarization_fallback_block_id vote)
block_id (skip_fallback _) = none

unfoldable pub replayed_bank_hash : Vote → Option Hash
replayed_bank_hash (notarize vote) = some (notarization_replayed_bank_hash vote)
replayed_bank_hash (finalize _) = none
replayed_bank_hash (skip _) = none
replayed_bank_hash (notarize_fallback vote) = some (notarization_fallback_replayed_bank_hash vote)
replayed_bank_hash (skip_fallback _) = none

unfoldable pub is_notarization_or_finalization : Vote → Bool
is_notarization_or_finalization (notarize _) = true
is_notarization_or_finalization (finalize _) = true
is_notarization_or_finalization _ = false

-- `X::new_internal` of each message, from the data of its instruction
abbrev pub finalization_internal : Slot → FinalizationVote
finalization_internal finalization_slot = record { slot = finalization_slot }

abbrev pub skip_internal : Slot → SkipVote
skip_internal slot = record { slot = slot }

abbrev pub skip_fallback_internal : Slot → SkipFallbackVote
skip_fallback_internal slot = record { slot = slot }

unfoldable pub notarization_internal : NotarizationVoteInstructionData → NotarizationVote
notarization_internal d = record {
  slot = d.slot;
  block_id = d.block_id;
  replayed_slot = 0;
  replayed_bank_hash = d.replayed_bank_hash;
}

unfoldable pub notarization_fallback_internal :
    NotarizationVoteInstructionData → NotarizationFallbackVote
notarization_fallback_internal d = record {
  slot = d.slot;
  block_id = d.block_id;
  replayed_slot = 0;
  replayed_bank_hash = d.replayed_bank_hash;
}

unfoldable pub is_notarization : Vote → Bool
is_notarization (notarize _) = true
is_notarization _ = false

unfoldable pub is_finalize : Vote → Bool
is_finalize (finalize _) = true
is_finalize _ = false

unfoldable pub is_skip : Vote → Bool
is_skip (skip _) = true
is_skip _ = false

unfoldable pub is_notarize_fallback : Vote → Bool
is_notarize_fallback (notarize_fallback _) = true
is_notarize_fallback _ = false

unfoldable pub is_skip_fallback : Vote → Bool
is_skip_fallback (skip_fallback _) = true
is_skip_fallback _ = false
