-- ===== src/Processor/Opening.antt =====
-- A validator from the initialization of its vote account on, with the instructions that
-- program/src/instruction.rs and vote.rs build and program/src/processor.rs runs.
use alpenglow_vote.Base.{◌≡◌, ◌∙◌, ◌∷◌, [], List, All, true, refl, sym, ap, arith}
use mathlib.Core.Path.{subst}
use alpenglow_vote.Word.{IsU64}
use alpenglow_vote.Exec.{continue, after, Exec, ok, ◌>>◌}
use alpenglow_vote.InstructionData.{InitializeAccountInstructionData, IsInitializeData}
use alpenglow_vote.State.{VoteState, new}
use alpenglow_vote.Platform.{Platform, AccountInfo, Sysvars, Clock, Rent, EpochSchedule}
use alpenglow_vote.Account.{Store}
use alpenglow_vote.Account.Laws.{Holds, Holds-write, write}
use alpenglow_vote.Builders
use alpenglow_vote.Client.{AreSmall, initialize_account, perform}
use alpenglow_vote.Instruction.{encode_instruction, encode_instruction_with_seed}
use alpenglow_vote.Spec.Ranges.{new-IsVoteState}
use alpenglow_vote.Processor
use alpenglow_vote.Processor.{process_instruction}
use alpenglow_vote.Processor.Initialize.{initialize_account_iff}
use alpenglow_vote.Processor.Requests.{process-build}
use alpenglow_vote.Processor.Voting.{
  Ballot, IsReady, CanVote, all_credited, cast_all, cast_all-credited,
}

-- the client's instruction that initializes an account
abbrev pub open_account :
    Platform
    → Sysvars
    → AccountInfo
    → AccountInfo
    → InitializeAccountInstructionData
    → Exec Store (Unit {0})
open_account P sysvars account node d =
    process_instruction P sysvars P.id (account ∷ node ∷ [])
      (Builders.initialize_account P account.key d).payload

module _ (P : Platform) (sysvars : Sysvars) (rent : Rent) (clock : Clock) (schedule : EpochSchedule)
    (account node authority : AccountInfo) (d : InitializeAccountInstructionData)
    (small : AreSmall P) (can : CanVote P account authority) (hr : sysvars.rent ≡ ok rent)
    (hc : sysvars.clock ≡ ok clock) (hs : sysvars.epoch_schedule ≡ ok schedule)
    (epoch_u64 : IsU64 clock.epoch) (in_range : IsInitializeData P.bls_pubkey_bound d)
    (key : node.key ≡ d.node_pubkey) (signs : node.is_signer ≡ true) where
  open P use {pod_vote_state, bls_pubkey_bound}

  abbrev opened : VoteState
  opened = new d clock.epoch

  module _ (s : VoteState) (st : Store) (h : Holds P account.cell s st)
      (exempt : rent.is_exempt (st account.cell).lamports pod_vote_state.size ≡ true)
      (blank : s.version ≡ 0) where
    performed :
        perform P account.cell rent clock schedule (initialize_account node d) st
        ≡ Processor.initialize_account P account.cell d clock st
    performed = ground (arith, h.stored, pod_vote_state.length_law s, exempt)

    ran :
        open_account P sysvars account node d st
        ≡ Processor.initialize_account P account.cell d clock st
    unfolding Builders.initialize_account encode_instruction encode_instruction_with_seed
    ran =
        process-build P sysvars rent clock schedule account st small can.owned hr hc hs
          (initialize_account node d) in_range (refl, tt, (key, signs, tt))
        ∙ performed

    initialized :
        ((Processor.initialize_account P account.cell d clock st).0 ≡ ok tt)
        × Holds P account.cell opened (Processor.initialize_account P account.cell d clock st).1
    initialized =
        let (accepts, leaves) = initialize_account_iff P account.cell d clock s st h in
        let done = accepts.1 blank in
        let new_range = new-IsVoteState bls_pubkey_bound d clock.epoch in_range epoch_u64 in
        let written = Holds-write P account.cell s opened st h new_range in
        let here : (Processor.initialize_account P account.cell d clock st).1 account.cell
            ≡ write P account.cell opened st account.cell =
          subst
            (λ r.
              (Processor.initialize_account P account.cell d clock st).1 account.cell
              ≡ after r (st account.cell) (write P account.cell opened st account.cell))
            done (leaves account.cell) in
        (
          done,
          record {
            idle = record {
              lamports_free = ap (λ c. c.lamports_borrow) here ∙ written.idle.lamports_free;
              contents_free = ap (λ c. c.contents_borrow) here ∙ written.idle.contents_free;
            };
            stored = ap (λ c. c.contents) here ∙ written.stored;
            in_range = new_range;
          },
        )

    -- Let the sysvars be there, the vote account be the program's, at rest, exempt from rent and of
    -- version 0, and the data be in range. If the validator signs the initialization, and the voter
    -- that it names signs any number of votes after it, in range and current when they land, then all
    -- of these instructions succeed, and the account ends with the new state and the votes' credits.
    pub open_account-cast_all :
        (bs : List Ballot)
        → authority.key ≡ d.authorized_voter
        → All (IsReady P) bs
        → (((open_account P sysvars account node d >> cast_all P account authority bs) st).0
            ≡ ok tt)
          × Holds P account.cell
              (all_credited bs opened)
              ((open_account P sysvars account node d >> cast_all P account authority bs) st).1
    open_account-cast_all bs voter ready =
        let (done, holds) = initialized in
        let start = Processor.initialize_account P account.cell d clock st in
        let votes =
          cast_all-credited P account authority can bs opened start.1 holds (unfold new in voter)
            ready in
        subst
          (λ r.
            ((continue (λ _. cast_all P account authority bs) r).0 ≡ ok tt)
            × Holds P account.cell (all_credited bs opened)
                (continue (λ _. cast_all P account authority bs) r).1)
          (sym ran)
          (subst
            (λ r.
              ((continue (λ _. cast_all P account authority bs) (r, start.1)).0 ≡ ok tt)
              × Holds P account.cell (all_credited bs opened)
                  (continue (λ _. cast_all P account authority bs) (r, start.1)).1)
            (sym done) votes)
