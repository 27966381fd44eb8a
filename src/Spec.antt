-- ===== src/Spec.antt =====
-- What one instruction may do to a vote account: the contract of program/src/processor.rs, stated
-- on the `VoteState` alone, with no bytes, borrows or instruction data.
pub mod Ranges
pub mod History
pub mod Growth
pub mod Ownership
use alpenglow_vote.Base.{ℕ, ◌+◌, ◌≤◌, ◌<◌, ◌^◌, ◌≡◌, ◌⊎◌, true, Option, some, List, [], ◌∷◌}
use alpenglow_vote.Exec.{Outcome, ok}
use alpenglow_vote.Pod.{Bytes}
use alpenglow_vote.Records.{Pubkey}
use alpenglow_vote.Records.AuthorizedVoter
use alpenglow_vote.InstructionData.{InitializeAccountInstructionData}
use alpenglow_vote.State.{VoteState, new}
use alpenglow_vote.Platform.{Platform, AccountInfo, Sysvars, Clock, EpochSchedule}
use alpenglow_vote.VoteProcessor.{earn}
use alpenglow_vote.Accounting.{is_commission_update_allowed}

-- Some account of the list signs with the key `k`.
abbrev pub Signs : Pubkey → List AccountInfo → Type 0
Signs k [] = ⊥
Signs k (a ∷ accounts) = ((a.is_signer ≡ true) × (a.key ≡ k)) ⊎ Signs k accounts

module _ (P : Platform) (sysvars : Sysvars) (accounts : List AccountInfo) where
  open P use {create_with_seed}

  -- A key that signs, or that is derived with a seed from one that signs.
  pub data Authorized (k : Pubkey) : Type 0 where
    signed : Signs k accounts → Authorized k
    derived :
        (base : Pubkey) (seed : Bytes) (owner : Pubkey)
        → Signs base accounts
        → create_with_seed base seed owner ≡ ok k
        → Authorized k

  pub data Permitted (s t : VoteState) : Type 0 where
    -- an empty account is initialized, with the consent of its validator
    initialized :
        (d : InitializeAccountInstructionData) (clock : Clock)
        → s.version ≡ 0
        → sysvars.clock ≡ ok clock
        → Signs d.node_pubkey accounts
        → t ≡ new d clock.epoch
        → Permitted s t
    -- the voter earns 1 to 16 credits
    earned :
        (n : ℕ) (clock : Clock)
        → 1 ≤ n
        → n ≤ 16
        → sysvars.clock ≡ ok clock
        → Signs s.authorized_voter.voter accounts
        → t ≡ record s { epoch_credits = earn clock.epoch n s.epoch_credits }
        → Permitted s t
    -- the withdrawer or the voter names the next voter, for a later epoch
    next_voter :
        (by key : Pubkey) (clock : Clock)
        → (s.authorized_withdrawer ≡ by) ⊎ (s.authorized_voter.voter ≡ by)
        → Authorized by
        → sysvars.clock ≡ ok clock
        → t ≡ record s {
          next_authorized_voter = some (AuthorizedVoter.new (clock.leader_schedule_epoch + 1) key);
        }
        → Permitted s t
    -- the withdrawer hands over its authority
    new_withdrawer :
        (key : Pubkey)
        → Authorized s.authorized_withdrawer
        → t ≡ record s { authorized_withdrawer = key }
        → Permitted s t
    -- the withdrawer names a new validator, which signs too
    new_identity :
        (node : Pubkey)
        → Signs s.authorized_withdrawer accounts
        → Signs node accounts
        → t ≡ record s { node_pubkey = node }
        → Permitted s t
    -- the withdrawer sets the commission
    new_commission :
        (commission : ℕ) (schedule : EpochSchedule) (clock : Clock)
        → Signs s.authorized_withdrawer accounts
        → sysvars.clock ≡ ok clock
        → sysvars.epoch_schedule ≡ ok schedule
        → (s.commission < commission) ⊎ (is_commission_update_allowed clock.slot schedule ≡ true)
        → t ≡ record s { commission = commission }
        → Permitted s t
    -- the withdrawer takes lamports, and the state stays
    withdrawn : Signs s.authorized_withdrawer accounts → t ≡ s → Permitted s t
