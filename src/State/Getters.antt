-- ===== src/State/Getters.antt =====
-- The getters of `VoteState`, program/src/state.rs.
use alpenglow_vote.Base.{ℕ, Option}
use alpenglow_vote.Records.{Pubkey, BlsPubkey}
use alpenglow_vote.Records.AuthorizedVoter.{AuthorizedVoter}
use alpenglow_vote.Records.EpochCredit.{EpochCredit}
use alpenglow_vote.State.{VoteState}

abbrev pub version : VoteState → ℕ
version s = s.version

abbrev pub node_pubkey : VoteState → Pubkey
node_pubkey s = s.node_pubkey

abbrev pub authorized_withdrawer : VoteState → Pubkey
authorized_withdrawer s = s.authorized_withdrawer

abbrev pub commission : VoteState → ℕ
commission s = s.commission

abbrev pub authorized_voter : VoteState → AuthorizedVoter
authorized_voter s = s.authorized_voter

abbrev pub next_authorized_voter : VoteState → Option AuthorizedVoter
next_authorized_voter s = s.next_authorized_voter

abbrev pub epoch_credits : VoteState → EpochCredit
epoch_credits s = s.epoch_credits

abbrev pub bls_pubkey : VoteState → BlsPubkey
bls_pubkey s = s.bls_pubkey
