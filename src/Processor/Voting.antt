-- ===== src/Processor/Voting.antt =====
-- A validator from the creation of its vote account on: the builders of program/src/instruction.rs
-- and vote.rs and `process_instruction` of program/src/processor.rs, one instruction after another.
use alpenglow_vote.Base.{All, ◌-◌, ℕ, ◌≡◌, ◌<◌, ◌∷◌, ◌∙◌, [], List, true, refl, sym, ap}
use mathlib.Core.Path.{subst}
use alpenglow_vote.Word.{u64_max, IsU64}
use alpenglow_vote.Exec.{continue, Exec, ok, ◌>>◌, pure}
use alpenglow_vote.State.{VoteState}
use alpenglow_vote.State.Ranges.{IsVoteState}
use alpenglow_vote.Platform.{Platform, AccountInfo, Sysvars, Clock, SlotHashes}
use alpenglow_vote.Account.{Store}
use alpenglow_vote.Account.Laws.{Holds, Holds-write, write}
use alpenglow_vote.Builders
use alpenglow_vote.Instruction.{encode_instruction, encode_instruction_with_seed}
use alpenglow_vote.Vote
use alpenglow_vote.Vote.{Vote, notarize, finalize, skip, notarize_fallback, skip_fallback}
use alpenglow_vote.Vote.Wire.{IsVote, to_vote_instruction}
use alpenglow_vote.VoteProcessor.{latency_to_credits}
use alpenglow_vote.VoteProcessor.Votes.{credited}
use alpenglow_vote.Spec.Ranges.{earn-IsVoteState}
use alpenglow_vote.Processor.{process_instruction}
use alpenglow_vote.Processor.EndToEnd.{AreResolved, IsCurrent, process-to_vote_instruction}

-- One vote, with the sysvars when it lands.
pub record Ballot : Type 0 where
  pub vote : Vote
  pub sysvars : Sysvars
  pub clock : Clock
  pub hashes : SlotHashes

module _ (P : Platform) where
  -- The sysvars are there, and the vote is in range and current.
  pub record IsReady (b : Ballot) : Type 0 where
    pub clock_there : b.sysvars.clock ≡ ok b.clock
    pub hashes_there : b.sysvars.slot_hashes ≡ ok b.hashes
    pub clock_u64 : IsU64 b.clock.epoch
    pub is_vote : IsVote P b.vote
    pub is_current : IsCurrent b.clock b.hashes b.vote

-- The state with the credits of all ballots, the first one first.
abbrev pub all_credited : List Ballot → VoteState → VoteState
all_credited [] s = s
all_credited (b ∷ bs) s = all_credited bs (credited b.clock (Vote.slot b.vote) s)

module _ (P : Platform) (account authority : AccountInfo) where
  -- the client's instruction for each ballot, in turn
  abbrev pub cast_all : List Ballot → Exec Store (Unit {0})
  cast_all [] = pure tt
  cast_all (b ∷ bs) =
      process_instruction P b.sysvars P.id (account ∷ authority ∷ [])
        (to_vote_instruction P b.vote account.key authority.key).payload
      >> cast_all bs

  -- what a client needs for its votes, beside the vote account itself
  pub record CanVote : Type 0 where
    pub owned : account.owner ≡ P.id
    pub signs : authority.is_signer ≡ true
    pub notarization_small : P.pod_notarization.size < u64_max
    pub u64_small : P.pod_u64.size < u64_max

  module _ (can : CanVote) where
    vote_resolved :
        (v : Vote) (k : ℕ)
        → authority.key ≡ k
        → AreResolved (to_vote_instruction P v account.key k).accounts (account ∷ authority ∷ [])
    unfolding to_vote_instruction Builders.notarize Builders.finalize Builders.skip
        Builders.notarize_fallback Builders.skip_fallback encode_instruction
        encode_instruction_with_seed
    vote_resolved (notarize v) k e = (refl, tt, (e, can.signs, tt))
    vote_resolved (finalize v) k e = (refl, tt, (e, can.signs, tt))
    vote_resolved (skip v) k e = (refl, tt, (e, can.signs, tt))
    vote_resolved (notarize_fallback v) k e = (refl, tt, (e, can.signs, tt))
    vote_resolved (skip_fallback v) k e = (refl, tt, (e, can.signs, tt))

    -- one ballot
    cast_one :
        (b : Ballot) (s : VoteState) (st : Store)
        → Holds P account.cell s st
        → authority.key ≡ s.authorized_voter.voter
        → IsReady P b
        → process_instruction P b.sysvars P.id
            (account ∷ authority ∷ [])
            (to_vote_instruction P b.vote account.key authority.key).payload
            st
          ≡ (ok tt, write P account.cell (credited b.clock (Vote.slot b.vote) s) st)
    cast_one b s st h key ready =
        subst
          (λ k.
            process_instruction P b.sysvars P.id (account ∷ authority ∷ [])
              (to_vote_instruction P b.vote account.key k).payload st
            ≡ (ok tt, write P account.cell (credited b.clock (Vote.slot b.vote) s) st))
          (sym key)
          (process-to_vote_instruction P b.sysvars b.clock b.hashes account authority s st h
            can.notarization_small can.u64_small can.owned ready.clock_there ready.hashes_there
            b.vote ready.is_vote ready.is_current
            (vote_resolved b.vote s.authorized_voter.voter key))

    credited-IsVoteState :
        (b : Ballot) (s : VoteState)
        → IsReady P b
        → IsVoteState P.bls_pubkey_bound s
        → IsVoteState P.bls_pubkey_bound (credited b.clock (Vote.slot b.vote) s)
    unfolding credited
    credited-IsVoteState b s ready h =
        earn-IsVoteState P.bls_pubkey_bound b.clock.epoch
          (latency_to_credits (b.clock.slot - Vote.slot b.vote)) s ready.clock_u64 h

    credited-voter :
        (b : Ballot) (s : VoteState)
        → (credited b.clock (Vote.slot b.vote) s).authorized_voter ≡ s.authorized_voter
    unfolding credited
    credited-voter b s = refl

    -- Let the vote account be the program's, at rest and hold a vote state, and its authorized voter
    -- sign. Any number of votes that are in range and current when they land, sent in turn as the
    -- client builds them, are all accepted, and the account then holds the state with their credits.
    pub cast_all-credited :
        (bs : List Ballot) (s : VoteState) (st : Store)
        → Holds P account.cell s st
        → authority.key ≡ s.authorized_voter.voter
        → All (IsReady P) bs
        → ((cast_all bs st).0 ≡ ok tt) × Holds P account.cell (all_credited bs s) (cast_all bs st).1
    cast_all-credited [] s st h key ready = (refl, h)
    cast_all-credited (b ∷ bs) s st h key (now, later) =
        let t = credited b.clock (Vote.slot b.vote) s in
        let written =
          Holds-write P account.cell s t st h (credited-IsVoteState b s now h.in_range) in
        let rest =
          cast_all-credited bs t (write P account.cell t st) written
            (key ∙ ap (λ a. a.voter) (sym (credited-voter b s))) later in
        subst
          (λ r.
            ((continue (λ _. cast_all bs) r).0 ≡ ok tt)
            × Holds P account.cell (all_credited bs t) (continue (λ _. cast_all bs) r).1)
          (sym (cast_one b s st h key now)) rest
