-- ===== src/Processor/Ledger/Guarantees.antt =====
-- What any events do to the accounts of the program: calls of program/src/processor.rs, with any
-- accounts and input, and what other programs do in between.
use alpenglow_vote.Base.{ℕ, ◌<◌, ◌≡◌, List, [], ◌∷◌, All}
use alpenglow_vote.Records.{Pubkey}
use alpenglow_vote.State.{VoteState}
use alpenglow_vote.Platform.{Platform, AccountInfo, Sysvars}
use alpenglow_vote.Account.{Store}
use alpenglow_vote.Account.Laws.{Holds}
use alpenglow_vote.Spec.History.{History}
use alpenglow_vote.Processor.Chain.{Event, call, others, elapse}
use alpenglow_vote.Processor.Custody.{IsUnauthorized, AnyChange, IsKept, withdrawer_only}
use alpenglow_vote.Processor.Ledger.{IsLedger, IsFair}
use alpenglow_vote.Processor.Ledger.Events.{OnAccounts, OnEvent, Reached, elapse-Reached}
use alpenglow_vote.Processor.Supply.{AreWithin, IsBalanced, supply_kept}
use alpenglow_vote.Processor.Trace.{
  OnStep, HoldsSome, HoldsSome-of_Holds, IsClosed, begin, Trace-keeps,
}
use alpenglow_vote.Processor.Transfers.{total}

-- no condition on an instruction
abbrev AnyStep : OnStep
AnyStep sysvars account iter = Unit {0}

any : (sysvars : Sysvars) (accounts : List AccountInfo) → OnAccounts AnyStep sysvars accounts
any sysvars [] = tt
any sysvars (_ ∷ _) = tt

All-any : (es : List Event) → All (OnEvent AnyStep AnyChange) es
All-any [] = tt
All-any (call c ∷ es) = (any c.sysvars c.accounts, All-any es)
All-any (others f ∷ es) = (tt, All-any es)

module _ (P : Platform) (program_id : Pubkey) (C : ℕ → Type 0) (es : List Event) (st : Store)
    (l : IsLedger P program_id C st) (fair : All (IsFair P program_id C) es) where
  reached :
      (V : OnStep) (W : (Store → Store) → Type 0)
      → All (OnEvent V W) es
      → Reached P program_id C V W st (elapse P program_id es st)
  reached V W vs =
      elapse-Reached P program_id C V W st es st (record { past = begin; every = tt; ledger = l })
        fair vs

  -- Let nothing be borrowed and every account that the program owns hold a vote state. However many
  -- calls follow, with any accounts and any input in range, each rolled back where it fails, and
  -- whatever the runtime lets other programs do in between: both still hold.
  pub elapse-IsLedger : IsLedger P program_id C (elapse P program_id es st)
  elapse-IsLedger = (reached AnyStep AnyChange (All-any es)).ledger

  -- What the steps permitted to `V`-instructions keep, each account of the program keeps.
  pub elapse_keeps :
      (V : OnStep) (i : ℕ) (s : VoteState) (R : VoteState → Type 0)
      → C i
      → Holds P i s st
      → R s
      → IsClosed P i V R
      → All (OnEvent V AnyChange) es
      → HoldsSome P i R (elapse P program_id es st)
  elapse_keeps V i s R ours h start closed vs =
      let r = reached V AnyChange vs in
      Trace-keeps P program_id C i V AnyChange R ours closed (HoldsSome-of_Holds P i R s st h start)
        r.past r.every

  pub elapse_always :
      (i : ℕ) (s : VoteState) (R : VoteState → Type 0)
      → C i
      → Holds P i s st
      → R s
      → IsClosed P i AnyStep R
      → HoldsSome P i R (elapse P program_id es st)
  elapse_always i s R ours h start closed =
      elapse_keeps AnyStep i s R ours h start closed (All-any es)

  -- Let nothing be borrowed and every account that the program owns hold a vote state. However many
  -- calls follow, with any accounts and any input in range, each rolled back where it fails, and
  -- whatever the runtime lets other programs do in between: each account of the program holds a vote
  -- state that steps permitted by the contract lead to from the one that it held.
  pub elapse-History :
      (i : ℕ) (s : VoteState)
      → C i
      → Holds P i s st
      → HoldsSome P i (History P s) (elapse P program_id es st)
  elapse-History i s ours h =
      elapse_always i s (History P s) ours h History.here
        λ sysvars account iter a t _ _ past permitted.
          History.next sysvars (account ∷ iter) past permitted

  -- Let nothing be borrowed and every account that the program owns hold a vote state. However many
  -- calls follow, with any accounts and any input in range, each rolled back where it fails, and
  -- whatever the runtime lets other programs do in between: if an account of the program holds an
  -- initialized vote state and no call on it is authorized by its withdrawer, then it still holds
  -- one, with the same version, withdrawer, validator identity and commission, and has lost no
  -- lamports.
  pub elapse-IsKept :
      (i : ℕ) (s : VoteState)
      → C i
      → Holds P i s st
      → 0 < s.version
      → All (OnEvent (IsUnauthorized P i s.authorized_withdrawer) AnyChange) es
      → IsKept P i s st (elapse P program_id es st)
  elapse-IsKept i s ours h live absent =
      let r = reached (IsUnauthorized P i s.authorized_withdrawer) AnyChange absent in
      withdrawer_only P program_id C i s ours live h r.past r.every

  -- Let nothing be borrowed and every account that the program owns hold a vote state. However many
  -- calls follow, with any input in range and any accounts among those from 0 to n - 1, each rolled
  -- back where it fails: if others move lamports among these accounts only, then the lamports of
  -- these accounts add up to what they did before.
  pub total-elapse :
      (n : ℕ)
      → All (OnEvent (AreWithin n) (IsBalanced n)) es
      → total n (elapse P program_id es st) ≡ total n st
  total-elapse n within =
      let r = reached (AreWithin n) (IsBalanced n) within in
      supply_kept n P program_id C r.past r.every
