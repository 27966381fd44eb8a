-- ===== src/Examples/LedgerWitnesses.antt =====
-- Theorems on any events, calls of program/src/processor.rs among them, applied to a vote, a gift and
-- a withdrawal on the sample accounts.
use alpenglow_vote.Base.{◌≡◌, ◌≢◌, ◌∷◌, [], All, refl, arith}
use alpenglow_vote.Exec.{panic}
use alpenglow_vote.Processor.Chain.{elapse, results}
use alpenglow_vote.Processor.Custody.{IsKept}
use alpenglow_vote.Processor.Ledger.{IsLedger}
use alpenglow_vote.Processor.Ledger.Guarantees.{elapse-IsLedger, elapse-IsKept, total-elapse}
use alpenglow_vote.Processor.Ledger.Refinement.{Governed, elapse-Governed}
use alpenglow_vote.Processor.Ledger.Panics.{results-ne-panic}
use alpenglow_vote.Processor.Safety.{ok_injective}
use alpenglow_vote.Processor.Supply.{IsBalanced}
use alpenglow_vote.Processor.Trace.{HoldsSome}
use alpenglow_vote.Processor.Transfers.{total}
use alpenglow_vote.Spec.{Authorized, signed, derived}
use alpenglow_vote.Examples.Accounts.{
  voting, store, store-Holds, sysvars, vote_account, voter_account,
}
use alpenglow_vote.Examples.Events.{
  gift, events, early, IsOurs, store-IsLedger, events-IsFair, early-IsFair,
}
use alpenglow_vote.Base.{◌+◌, ◌-◌, ◌≤◌}
use alpenglow_vote.Word.{u64_max}
use alpenglow_vote.Exec.{ok}
use alpenglow_vote.Builders
use alpenglow_vote.Instruction.{encode_instruction}
use alpenglow_vote.Client.{withdraw, build}
use alpenglow_vote.Account.Laws.{write}
use alpenglow_vote.VoteProcessor.Votes.{credited}
use alpenglow_vote.Processor.EndToEnd.{AreResolved}
use alpenglow_vote.Processor.Ledger.Access.{run_withdrawal, withdrawal_stays_open}
use alpenglow_vote.Examples.Layouts.{pod_vote_state, pod_voter, pod_next_voter, pod_credit}
use alpenglow_vote.Examples.Codecs.{pod_le}
use alpenglow_vote.Examples.ProcessorWitnesses.{voted}
use alpenglow_vote.Examples.Accounts.{rent, clock, schedule, recipient_account, withdrawer_account}
use alpenglow_vote.Examples.RequestWitnesses.{sample-IsCalm, sample-AreSmall}
use alpenglow_vote.Examples.Sample.{sample}

elapse-IsLedger_example : IsLedger sample 77 IsOurs (elapse sample 77 events store)
elapse-IsLedger_example = elapse-IsLedger sample 77 IsOurs events store store-IsLedger events-IsFair

elapse-Governed_example :
    HoldsSome sample 0 (Governed sample 77 0 events store voting) (elapse sample 77 events store)
elapse-Governed_example =
    elapse-Governed sample 77 0 IsOurs refl events store store-IsLedger events-IsFair voting
      store-Holds

-- the withdrawer is none of the vote's signers, and no key below 2 ^ 255 is derived
withdrawer_absent :
    Authorized sample sysvars (vote_account ∷ voter_account ∷ []) voting.authorized_withdrawer → ⊥
unfolding sample
withdrawer_absent (signed signs) = ground (arith, signs)
withdrawer_absent (derived base seed owner _ e) =
    let same = ok_injective _ _ e in omega (arith, same)

elapse-IsKept_example : IsKept sample 0 voting store (elapse sample 77 early store)
elapse-IsKept_example =
    elapse-IsKept sample 77 IsOurs early store store-IsLedger early-IsFair 0 voting refl store-Holds
      (omega arith) (λ same. withdrawer_absent, (tt, tt))

gift-IsBalanced : IsBalanced 5 gift
gift-IsBalanced st = omega arith

total-elapse_example : total 5 (elapse sample 77 events store) ≡ total 5 store
total-elapse_example =
    total-elapse sample 77 IsOurs events store store-IsLedger events-IsFair 5
      ((omega arith, omega arith), (gift-IsBalanced, ((omega arith, omega arith), tt)))

results-ne-panic_example : All (λ r. r ≢ panic) (results sample 77 events store)
results-ne-panic_example =
    results-ne-panic sample 77 IsOurs events store store-IsLedger events-IsFair
      (sample-IsCalm, (tt, (sample-IsCalm, tt)))

-- what the vote and the gift leave
early-store : elapse sample 77 early store ≡ gift (write sample 0 (credited clock 97 voting) store)
unfolding elapse
early-store = rw voted

recipient_room : (elapse sample 77 early store 4).lamports + 300 ≤ u64_max
recipient_room = rw early-store (omega arith)

resolved_withdrawal :
    AreResolved
      (build sample 1 (withdraw recipient_account withdrawer_account 300)).accounts
      (vote_account ∷ recipient_account ∷ withdrawer_account ∷ [])
unfolding Builders.withdraw encode_instruction
resolved_withdrawal = (refl, tt, (refl, tt, (refl, refl, tt)))

rent_exempt : rent.minimum_balance sample.pod_vote_state.size ≤ 1000 - 300
unfolding sample pod_vote_state pod_voter pod_next_voter pod_credit pod_le
rent_exempt = omega arith

owned_by_sample : vote_account.owner ≡ sample.id
unfolding sample
owned_by_sample = refl

-- Of 1000 lamports 300 can be withdrawn after the vote and the gift.
withdrawal_stays_open_example :
    let u = elapse sample sample.id early store in
    let (r, v) =
      run_withdrawal sample sysvars rent clock schedule sample-AreSmall refl refl refl vote_account
        recipient_account withdrawer_account 300 owned_by_sample
        (omega arith)
        resolved_withdrawal
        u in
    (r ≡ ok tt) × ((v 4).lamports ≡ (u 4).lamports + 300)
unfolding sample
withdrawal_stays_open_example =
    withdrawal_stays_open sample sysvars rent clock schedule sample-AreSmall refl refl refl
      vote_account recipient_account withdrawer_account 300 owned_by_sample (omega arith)
      resolved_withdrawal IsOurs early store store-IsLedger early-IsFair voting refl store-Holds
      (omega arith) (λ same. withdrawer_absent, (tt, tt)) refl (omega arith) rent_exempt
      (omega arith) recipient_room
