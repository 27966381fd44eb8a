-- ===== src/Examples/Events.antt =====
-- A vote, a gift of another program's and a withdrawal on the sample accounts, one after the other.
use alpenglow_vote.Base.{ℕ, ◌+◌, ◌≤◌, ◌≡◌, ◌∷◌, List, [], All, refl, sym, arith}
use mathlib.Core.Path.{subst}
use alpenglow_vote.Account.{Store, set_lamports}
use alpenglow_vote.Account.Laws.{Holds}
use alpenglow_vote.Processor.Chain.{Event, call, others}
use alpenglow_vote.Processor.Idle.{AllIdle}
use alpenglow_vote.Processor.Ledger.{IsLedger, IsProper, IsFair}
use alpenglow_vote.Processor.Refines.{Scene}
use alpenglow_vote.Processor.Schedule.{Call}
use alpenglow_vote.Processor.Trace.{Spares}
use alpenglow_vote.Examples.Sample.{sample}
use alpenglow_vote.Examples.Accounts.{voting, store, store-IsIdle, store-Holds}
use alpenglow_vote.Examples.ProcessorWitnesses.{by_voter}
use alpenglow_vote.Examples.RequestWitnesses.{withdrawing}

abbrev pub call_of : Scene → Call
call_of x = record { sysvars = x.sysvars; accounts = x.account ∷ x.iter; input = x.input }

-- The account 4 gives all that it has to the vote account.
abbrev pub gift : Store → Store
gift st = set_lamports 4 0 (set_lamports 0 ((st 0).lamports + (st 4).lamports) st)

abbrev pub events : List Event
events = call (call_of by_voter) ∷ others gift ∷ call (call_of withdrawing) ∷ []

-- The program owns the account 0.
abbrev pub IsOurs : ℕ → Type 0
IsOurs i = i ≡ 0

pub store-IsLedger : IsLedger sample 77 IsOurs store
store-IsLedger = record {
  idle = store-IsIdle;
  states = λ i own. (voting, subst (λ k. Holds sample k voting store) (sym own) store-Holds);
}

vote-IsProper : IsProper sample 77 IsOurs (call_of by_voter)
vote-IsProper = record { is_input = by_voter.is_input; owned = (λ _. refl, (λ e. omega arith, tt)) }

withdrawal-IsProper : IsProper sample 77 IsOurs (call_of withdrawing)
withdrawal-IsProper = record {
  is_input = withdrawing.is_input;
  owned = (λ _. refl, (λ e. omega arith, (λ e. omega arith, tt)));
}

gift_idle : (st : Store) → AllIdle st → AllIdle (gift st)
gift_idle st h k = record {
  lamports_free = ground (arith, (h k).lamports_free, (h 0).lamports_free, (h 4).lamports_free);
  contents_free = ground (arith, (h k).contents_free, (h 0).contents_free, (h 4).contents_free);
}

gift_same : (st : Store) (i : ℕ) → IsOurs i → (gift st i).contents ≡ (st i).contents
gift_same st i own = rw own refl

gift_credited : (st : Store) (i : ℕ) → IsOurs i → (st i).lamports ≤ (gift st i).lamports
gift_credited st i own = rw own (omega arith)

gift-Spares : Spares IsOurs gift
gift-Spares = record { idle = gift_idle; same = gift_same; credited = gift_credited }

pub events-IsFair : All (IsFair sample 77 IsOurs) events
events-IsFair = (vote-IsProper, (gift-Spares, (withdrawal-IsProper, tt)))

-- the vote and the gift
abbrev pub early : List Event
early = call (call_of by_voter) ∷ others gift ∷ []

pub early-IsFair : All (IsFair sample 77 IsOurs) early
early-IsFair = (vote-IsProper, (gift-Spares, tt))

-- the gift and the withdrawal
abbrev pub late : List Event
late = others gift ∷ call (call_of withdrawing) ∷ []

pub late-IsFair : All (IsFair sample 77 IsOurs) late
late-IsFair = (gift-Spares, (withdrawal-IsProper, tt))
