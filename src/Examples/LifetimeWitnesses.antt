-- ===== src/Examples/LifetimeWitnesses.antt =====
-- Theorems on the voter and the credits over any events, applied to a vote, a gift and a withdrawal on
-- the sample accounts.
use alpenglow_vote.Base.{◌≡◌, ◌∷◌, [], refl, arith}
use alpenglow_vote.Processor.Chain.{elapse}
use alpenglow_vote.Processor.Ledger.Lifetime.{
  authorized_voter_fixed, next_voter-IsLater, credits_grow, voter_only,
}
use alpenglow_vote.Processor.Safety.{ok_injective}
use alpenglow_vote.Processor.Trace.{HoldsSome}
use alpenglow_vote.Spec.{Authorized, signed, derived}
use alpenglow_vote.Spec.Growth.{IsGrown}
use alpenglow_vote.Spec.History.{SameFixed, IsLater}
use alpenglow_vote.Examples.Accounts.{
  voting, vote_account, recipient_account, withdrawer_account, sysvars, store, store-Holds,
}
use alpenglow_vote.Examples.Events.{
  events, late, IsOurs, store-IsLedger, events-IsFair, late-IsFair,
}
use alpenglow_vote.Base.{List}
use alpenglow_vote.Exec.{ok}
use alpenglow_vote.State.{VoteState}
use alpenglow_vote.Account.Laws.{Holds}
use alpenglow_vote.Vote
use alpenglow_vote.Processor.Ledger.Access.{voting_stays_open}
use alpenglow_vote.Processor.Voting.{Ballot, all_credited, cast_all}
use alpenglow_vote.Examples.Accounts.{voter_account, clock, hashes}
use alpenglow_vote.Examples.ProcessorWitnesses.{vote, notarization_size}
use alpenglow_vote.Examples.Sample.{sample, u64_size}

authorized_voter_fixed_example :
    HoldsSome sample 0 (SameFixed sample voting) (elapse sample 77 events store)
authorized_voter_fixed_example =
    authorized_voter_fixed sample 77 IsOurs events store store-IsLedger events-IsFair 0 voting refl
      store-Holds (omega arith)

next_voter-IsLater_example :
    HoldsSome sample 0 (λ t. IsLater sample t.next_authorized_voter) (elapse sample 77 events store)
next_voter-IsLater_example =
    next_voter-IsLater sample 77 IsOurs events store store-IsLedger events-IsFair 0 voting refl
      store-Holds tt

credits_grow_example :
    HoldsSome sample 0
      (λ t. IsGrown voting.epoch_credits t.epoch_credits)
      (elapse sample 77 events store)
credits_grow_example =
    credits_grow sample 77 IsOurs events store store-IsLedger events-IsFair 0 voting refl
      store-Holds (omega arith) (omega arith) (omega arith)

-- the voter is none of the withdrawal's signers
voter_absent :
    Authorized sample sysvars
      (vote_account ∷ recipient_account ∷ withdrawer_account ∷ [])
      voting.authorized_voter.voter
    → ⊥
unfolding sample
voter_absent (signed signs) = ground (arith, signs)
voter_absent (derived base seed owner _ e) = let same = ok_injective _ _ e in omega (arith, same)

voter_only_example :
    HoldsSome sample 0 (λ t. t.epoch_credits ≡ voting.epoch_credits) (elapse sample 77 late store)
voter_only_example =
    voter_only sample 77 IsOurs late store store-IsLedger late-IsFair 0 voting refl store-Holds
      (omega arith) (tt, (λ same. voter_absent, tt))

-- a finalization of slot 97 that lands in slot 100
abbrev ballots : List Ballot
ballots =
    record { vote = Vote.finalize vote; sysvars = sysvars; clock = clock; hashes = hashes } ∷ []

voting_stays_open_example :
    let u = elapse sample sample.id events store in
    (t : VoteState) × SameFixed sample voting t
    × Holds sample 0 t u
    × ((cast_all sample vote_account voter_account ballots u).0 ≡ ok tt)
    × Holds sample 0
        (all_credited ballots t)
        (cast_all sample vote_account voter_account ballots u).1
unfolding sample
voting_stays_open_example =
    voting_stays_open sample IsOurs events store store-IsLedger events-IsFair vote_account
      voter_account
      (record {
        owned = refl;
        signs = refl;
        notarization_small = notarization_size;
        u64_small = u64_size;
      })
      voting refl store-Holds (omega arith) refl ballots
      (
        record {
          clock_there = refl;
          hashes_there = refl;
          clock_u64 = omega arith;
          is_vote = omega arith;
          is_current = tt;
        },
        tt,
      )
