-- ===== src/Processor/Ledger/Access.antt =====
-- What stays open to the withdrawer and the voter after any events: `withdraw` of
-- program/src/accounting.rs and the votes of program/src/vote_processor.rs, as clients send them.
use alpenglow_vote.Base.{ap, sym, ℕ, ◌+◌, ◌-◌, ◌<◌, ◌≤◌, ◌≡◌, ◌≢◌, ◌∷◌, ◌∙◌, [], arith, List, All}
use alpenglow_vote.Word.{IsU64, u64_max}
use alpenglow_vote.Exec.{Outcome, ok}
use alpenglow_vote.Processor.Idle.{AllIdle}
use alpenglow_vote.State.{VoteState}
use alpenglow_vote.Platform.{Platform, AccountInfo, Sysvars, Clock, EpochSchedule, Rent}
use alpenglow_vote.Account.{Store}
use alpenglow_vote.Account.Laws.{Holds}
use alpenglow_vote.Accounting.Withdraw.{withdraw_moves}
use alpenglow_vote.Client.{withdraw, build, AreSmall}
use alpenglow_vote.Processor.{process_instruction}
use alpenglow_vote.Processor.Allowed.{process-build_ok_iff}
use alpenglow_vote.Processor.Chain.{Event, elapse}
use alpenglow_vote.Processor.Custody.{IsUnauthorized, AnyChange}
use alpenglow_vote.Processor.EndToEnd.{AreResolved}
use alpenglow_vote.Processor.Ledger.{IsLedger, IsFair}
use alpenglow_vote.Processor.Ledger.Events.{OnEvent}
use alpenglow_vote.Processor.Ledger.Guarantees.{elapse-IsLedger, elapse-IsKept}
use alpenglow_vote.Processor.Ledger.Lifetime.{authorized_voter_fixed}
use alpenglow_vote.Processor.Voting.{
  CanVote, Ballot, IsReady, all_credited, cast_all, cast_all-credited,
}
use alpenglow_vote.Spec.History.{SameFixed}
use alpenglow_vote.Processor.Requests.{process-build}

module _ (P : Platform) (sysvars : Sysvars) (rent : Rent) (clock : Clock) (schedule : EpochSchedule)
    (small : AreSmall P) (hr : sysvars.rent ≡ ok rent) (hc : sysvars.clock ≡ ok clock)
    (hs : sysvars.epoch_schedule ≡ ok schedule) (account recipient authority : AccountInfo) (n : ℕ)
    (owned : account.owner ≡ P.id) (fits : IsU64 n)
    (resolved : AreResolved
      (build P account.key (withdraw recipient authority n)).accounts
      (account ∷ recipient ∷ authority ∷ [])) where
  open P use {pod_vote_state}

  abbrev pub run_withdrawal : Store → Outcome (Unit {0}) × Store
  run_withdrawal st =
      process_instruction P sysvars P.id (account ∷ recipient ∷ authority ∷ [])
        (build P account.key (withdraw recipient authority n)).payload st

  -- A withdrawal by the withdrawer that leaves enough in the account is paid.
  withdrawal_pays :
      (t : VoteState) (u : Store)
      → Holds P account.cell t u
      → AllIdle u
      → t.authorized_withdrawer ≡ authority.key
      → n < (u account.cell).lamports
      → rent.minimum_balance pod_vote_state.size ≤ (u account.cell).lamports - n
      → account.cell ≢ recipient.cell
      → (u recipient.cell).lamports + n ≤ u64_max
      → ((run_withdrawal u).0 ≡ ok tt)
        × (((run_withdrawal u).1 recipient.cell).lamports ≡ (u recipient.cell).lamports + n)
  withdrawal_pays t u h idle signs less exempt apart room =
      let r = withdraw recipient authority n in
      let same =
        process-build P sysvars rent clock schedule account u small owned hr hc hs r fits
          resolved in
      let paid =
        (process-build_ok_iff P sysvars rent clock schedule account t u h idle small owned hr hc hs
            r fits resolved).1
          (signs, less, exempt, apart, room) in
      let moves =
        withdraw_moves P account.cell recipient.cell n authority.key rent clock t u h
          (idle recipient.cell) (rw same at paid) recipient.cell in
      (paid, rw same (ground (arith, moves)))

  -- Let nothing be borrowed and every account that the program owns hold a vote state, the vote
  -- account an initialized one. However many calls follow, with any accounts and any input in range,
  -- each rolled back where it fails, and whatever the runtime lets other programs do in between: if
  -- no call on the vote account is authorized by its withdrawer, then afterwards the withdrawer can
  -- take out what it could at first. A withdrawal as the client builds it, with the sysvars there
  -- and the accounts and signatures that it lists, succeeds and pays the recipient, if it leaves a
  -- part of the first balance that is exempt from rent, and the recipient is another account whose
  -- balance stays a u64.
  pub withdrawal_stays_open :
      (C : ℕ → Type 0) (es : List Event) (st : Store)
      → IsLedger P P.id C st
      → All (IsFair P P.id C) es
      → (s : VoteState) → C account.cell
      → Holds P account.cell s st
      → 0 < s.version
      → All (OnEvent (IsUnauthorized P account.cell s.authorized_withdrawer) AnyChange) es
      → s.authorized_withdrawer ≡ authority.key
      → n < (st account.cell).lamports
      → rent.minimum_balance pod_vote_state.size ≤ (st account.cell).lamports - n
      → account.cell ≢ recipient.cell
      → (elapse P P.id es st recipient.cell).lamports + n ≤ u64_max
      → let u = elapse P P.id es st in
        ((run_withdrawal u).0 ≡ ok tt)
        × (((run_withdrawal u).1 recipient.cell).lamports ≡ (u recipient.cell).lamports + n)
  withdrawal_stays_open C es st l fair s ours h live absent by less exempt apart room =
      let u = elapse P P.id es st in
      let kept = elapse-IsKept P P.id C es st l fair account.cell s ours h live absent in
      let idle = (elapse-IsLedger P P.id C es st l fair).idle in
      let t = kept.holds.state in
      let held : Holds P account.cell t u = record {
        idle = idle account.cell;
        stored = kept.holds.stored;
        in_range = kept.holds.in_range;
      } in
      withdrawal_pays t u held idle (kept.holds.kept.same_owned.authorized_withdrawer ∙ by)
        (omega (arith, kept.no_loss)) (omega (arith, kept.no_loss)) apart room

-- Let nothing be borrowed and every account that the program owns hold a vote state, the vote account
-- an initialized one. However many calls follow, with any accounts and any input in range, each
-- rolled back where it fails, also such as name another voter, and whatever the runtime lets other
-- programs do in between: the first voter still votes. All votes in range that it signs, sent in turn
-- as the client builds them, each current when it lands, are accepted, and the account, with the
-- version, voter and BLS key that it had at first, gets the credits of each.
pub voting_stays_open :
    (P : Platform) (C : ℕ → Type 0) (es : List Event) (st : Store)
    → IsLedger P P.id C st
    → All (IsFair P P.id C) es
    → (account authority : AccountInfo) → CanVote P account authority
    → (s : VoteState) → C account.cell
    → Holds P account.cell s st
    → 0 < s.version
    → authority.key ≡ s.authorized_voter.voter
    → (bs : List Ballot) → All (IsReady P) bs
    → let u = elapse P P.id es st in
      (t : VoteState) × SameFixed P s t
      × Holds P account.cell t u
      × ((cast_all P account authority bs u).0 ≡ ok tt)
      × Holds P account.cell (all_credited bs t) (cast_all P account authority bs u).1
voting_stays_open P C es st l fair account authority can s ours h live key bs ready =
    let u = elapse P P.id es st in
    let some_state = authorized_voter_fixed P P.id C es st l fair account.cell s ours h live in
    let t = some_state.state in
    let held : Holds P account.cell t u = record {
      idle = (elapse-IsLedger P P.id C es st l fair).idle account.cell;
      stored = some_state.stored;
      in_range = some_state.in_range;
    } in
    let (accepted, after) =
      cast_all-credited P account authority can bs t u held
        (key ∙ ap (λ a. a.voter) (sym some_state.kept.authorized_voter)) ready in
    (t, some_state.kept, held, accepted, after)
