-- ===== src/State/Ranges.antt =====
-- The ranges of a vote state's fields: what its bytes can hold, in program/src/state.rs.
use alpenglow_vote.Base.{ℕ, ◌<◌, Option, none, some}
use alpenglow_vote.Word.{IsU8, IsU64}
use alpenglow_vote.Records.{IsBytes32}
use alpenglow_vote.Records.AuthorizedVoter
use alpenglow_vote.Records.AuthorizedVoter.{AuthorizedVoter}
use alpenglow_vote.Records.EpochCredit
use alpenglow_vote.State.{VoteState}

abbrev pub IsNextVoter : Option AuthorizedVoter → Type 0
IsNextVoter none = Unit {0}
IsNextVoter (some av) = AuthorizedVoter.IsInRange av

pub record IsVoteState (n : ℕ) (s : VoteState) : Type 0 where
  pub version_u8 : IsU8 s.version
  pub node_pubkey_bytes : IsBytes32 s.node_pubkey
  pub authorized_withdrawer_bytes : IsBytes32 s.authorized_withdrawer
  pub commission_u8 : IsU8 s.commission
  pub voter_range : AuthorizedVoter.IsInRange s.authorized_voter
  pub next_voter_range : IsNextVoter s.next_authorized_voter
  pub credits_range : EpochCredit.IsInRange s.epoch_credits
  pub replayed_slot_u64 : IsU64 s.replayed_slot
  pub replayed_bank_hash_bytes : IsBytes32 s.replayed_bank_hash
  pub bls_pubkey_bytes : s.bls_pubkey < n
