-- ===== src/Accounting/Authority.antt =====
-- `authorize` and `update_validator_identity` of program/src/accounting.rs on the `VoteState`: who
-- may change what.
use alpenglow_vote.Base.{◌+◌, ◌≤◌, ◌≡◌, ◌↔◌, ◌⊎◌, some, none, arith, if◌then◌else◌, leb}
use alpenglow_vote.Word.{u64_max}
use alpenglow_vote.Exec.{after, ok}
use alpenglow_vote.Records.{Pubkey, Epoch}
use alpenglow_vote.Records.AuthorizedVoter
use alpenglow_vote.InstructionData.{voter, withdrawer, AuthorityType}
use alpenglow_vote.State.{VoteState, get_authorized_voter}
use alpenglow_vote.Platform.{Clock}
use alpenglow_vote.Accounting.{authorize_state, update_validator_identity_state}

-- The state after `authorize`.
unfoldable pub authorized : Pubkey → AuthorityType → Clock → VoteState → VoteState
authorized key voter clock s = record s {
  next_authorized_voter = some (AuthorizedVoter.new (clock.leader_schedule_epoch + 1) key);
}
authorized key withdrawer clock s = record s { authorized_withdrawer = key }

-- Who may hand over an authority: the withdrawer either one, the voter the vote authority, while
-- the next epoch of the leader schedule still is a u64.
abbrev pub MayAuthorize : AuthorityType → Pubkey → Clock → VoteState → Type 0
MayAuthorize voter by clock s =
    ((s.authorized_withdrawer ≡ by) ⊎ (s.authorized_voter.voter ≡ by))
    × (clock.leader_schedule_epoch + 1 ≤ u64_max)
MayAuthorize withdrawer by clock s = s.authorized_withdrawer ≡ by

-- `authorize` succeeds exactly for those who may hand the authority over, then changes only that
-- authority, and otherwise changes nothing.
pub authorize_state_iff :
    (key : Pubkey) (type : AuthorityType) (by : Pubkey) (clock : Clock) (s : VoteState)
    → let (r, t) = authorize_state key type by clock s in
      ((r ≡ ok tt) ↔ MayAuthorize type by clock s) × (t ≡ after r s (authorized key type clock s))
unfolding authorize_state authorized
authorize_state_iff key voter by clock s = ground arith
authorize_state_iff key withdrawer by clock s = ground arith

-- After a successful hand-over of the vote authority the new key is the authorized voter from the
-- epoch after the leader schedule's on, and before it the current voter is, from its own epoch on.
pub get_authorized_voter-authorize :
    (key by : Pubkey) (clock : Clock) (s t : VoteState) (epoch : Epoch)
    → authorize_state key voter by clock s ≡ (ok tt, t)
    → get_authorized_voter t epoch ≡ (
        if leb (clock.leader_schedule_epoch + 1) epoch
        then some key
        else if leb s.authorized_voter.epoch epoch
        then some s.authorized_voter.voter
        else none)
unfolding authorize_state get_authorized_voter
get_authorized_voter-authorize key by clock s t epoch h = ground arith

-- A new validator identity is accepted exactly from the withdrawer, and nothing else of the state
-- changes.
pub update_validator_identity_state_iff :
    (node by : Pubkey) (s : VoteState)
    → let (r, t) = update_validator_identity_state node by s in
      ((r ≡ ok tt) ↔ (s.authorized_withdrawer ≡ by))
      × (t ≡ after r s (record s { node_pubkey = node }))
unfolding update_validator_identity_state
update_validator_identity_state_iff node by s = ground arith
