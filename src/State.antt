-- ===== src/State.antt =====
-- `VoteState` of program/src/state.rs: the contents of a vote account.
pub mod Ranges
pub mod Codec
pub mod Getters
pub mod Timestamp
pub mod SharedAccount
use alpenglow_vote.Base.{ℕ, Bool, Option, none, some, ltb, leb, if◌then◌else◌}
use alpenglow_vote.Records.{Pubkey, Hash, BlsPubkey, Slot, Epoch}
use alpenglow_vote.Records.AuthorizedVoter
use alpenglow_vote.Records.AuthorizedVoter.{AuthorizedVoter}
use alpenglow_vote.Records.Getters.{authorized_voter_epoch}
use alpenglow_vote.Records.EpochCredit
use alpenglow_vote.Records.EpochCredit.{EpochCredit}
use alpenglow_vote.InstructionData.{InitializeAccountInstructionData}

pub record VoteState : Type 0 where
  pub version : ℕ
  pub node_pubkey : Pubkey
  pub authorized_withdrawer : Pubkey
  pub commission : ℕ
  pub authorized_voter : AuthorizedVoter
  pub next_authorized_voter : Option AuthorizedVoter
  pub epoch_credits : EpochCredit
  pub replayed_slot : Slot
  pub replayed_bank_hash : Hash
  pub bls_pubkey : BlsPubkey

abbrev pub vote_state_version : ℕ
vote_state_version = 1

abbrev pub default : VoteState
default = record {
  version = 0;
  node_pubkey = 0;
  authorized_withdrawer = 0;
  commission = 0;
  authorized_voter = AuthorizedVoter.default;
  next_authorized_voter = none;
  epoch_credits = EpochCredit.default;
  replayed_slot = 0;
  replayed_bank_hash = 0;
  bls_pubkey = 0;
}

-- `VoteState::new`; of the clock only the epoch is read.
unfoldable pub new : InitializeAccountInstructionData → Epoch → VoteState
new init_data clock_epoch = record {
  version = vote_state_version;
  node_pubkey = init_data.node_pubkey;
  authorized_withdrawer = init_data.authorized_withdrawer;
  commission = init_data.commission;
  authorized_voter = record { epoch = clock_epoch; voter = init_data.authorized_voter };
  next_authorized_voter = none;
  epoch_credits = EpochCredit.default;
  replayed_slot = 0;
  replayed_bank_hash = 0;
  bls_pubkey = init_data.bls_pubkey;
}

unfoldable pub is_initialized : VoteState → Bool
is_initialized s = ltb 0 s.version

-- The key of the next authorized voter, once `epoch` has reached it.
abbrev next_voter_at : Option AuthorizedVoter → Epoch → Option Pubkey
next_voter_at none epoch = none
next_voter_at (some av) epoch =
    if leb (authorized_voter_epoch av) epoch then some av.voter else none

unfoldable pub get_authorized_voter : VoteState → Epoch → Option Pubkey
get_authorized_voter s epoch = elim (next_voter_at s.next_authorized_voter epoch) [
  | some voter ↦ some voter
  | none ↦
      if leb (authorized_voter_epoch s.authorized_voter) epoch
      then some s.authorized_voter.voter
      else none
]

unfoldable pub new_for_tests : Pubkey → Pubkey → Epoch → Pubkey → ℕ → BlsPubkey → VoteState
new_for_tests node_pubkey authorized_voter epoch authorized_withdrawer commission bls_pubkey =
    record default {
      version = vote_state_version;
      node_pubkey = node_pubkey;
      authorized_voter = record { epoch = epoch; voter = authorized_voter };
      authorized_withdrawer = authorized_withdrawer;
      commission = commission;
      bls_pubkey = bls_pubkey;
    }

abbrev pub set_node_pubkey : Pubkey → VoteState → VoteState
set_node_pubkey node_pubkey s = record s { node_pubkey = node_pubkey }

abbrev pub set_authorized_withdrawer : Pubkey → VoteState → VoteState
set_authorized_withdrawer authorized_withdrawer s = record s {
  authorized_withdrawer = authorized_withdrawer;
}

abbrev pub set_commission : ℕ → VoteState → VoteState
set_commission commission s = record s { commission = commission }

abbrev pub set_authorized_voter : AuthorizedVoter → VoteState → VoteState
set_authorized_voter authorized_voter s = record s { authorized_voter = authorized_voter }

abbrev pub set_next_authorized_voter : AuthorizedVoter → VoteState → VoteState
set_next_authorized_voter next_authorized_voter s = record s {
  next_authorized_voter = some next_authorized_voter;
}

abbrev pub set_epoch_credits : EpochCredit → VoteState → VoteState
set_epoch_credits epoch_credits s = record s { epoch_credits = epoch_credits }
