-- ===== src/Processor/Ledger.antt =====
-- The store between the calls of program/src/processor.rs that the runtime makes: every account of
-- the program holds a vote state and nothing is borrowed, so that each call begins as a `Scene`.
pub mod Events
pub mod Guarantees
pub mod Access
pub mod Lifetime
pub mod Panics
pub mod Refinement
use alpenglow_vote.Base.{arith, ℕ, ◌≡◌, ◌≢◌, ◌∷◌, ◌∙◌, List, [], All}
use mathlib.Core.Path.{subst}
use native.Mathlib.Decide.{ℕ_discrete}
use alpenglow_vote.Exec.{ok}
use alpenglow_vote.Records.{Pubkey}
use alpenglow_vote.State.{VoteState}
use alpenglow_vote.Platform.{Platform, AccountInfo, Sysvars}
use alpenglow_vote.Pod.{Bytes}
use alpenglow_vote.Account.{Store}
use alpenglow_vote.Account.Laws.{Holds}
use alpenglow_vote.Spec.Ranges.{IsInput}
use alpenglow_vote.Processor.{process_instruction}
use alpenglow_vote.Processor.Refines.{Scene}
use alpenglow_vote.Processor.Safety.{run, process_instruction-Permitted}
use alpenglow_vote.Processor.Idle.{AllIdle, run-AllIdle}
use alpenglow_vote.Processor.Chain.{Event, call, others}
use alpenglow_vote.Processor.Schedule.{Call}
use alpenglow_vote.Processor.Trace.{Spares}

module _ (P : Platform) (program_id : Pubkey) (C : ℕ → Type 0) where
  -- Nothing is borrowed, and the accounts in `C`, those of the program, hold vote states.
  pub record IsLedger (st : Store) : Type 0 where
    pub idle : AllIdle st
    pub states : (i : ℕ) → C i → (s : VoteState) × Holds P i s st

  -- What the runtime passes is in range, and an account that the program owns is in `C`.
  pub record IsProper (c : Call) : Type 0 where
    pub is_input : IsInput c.sysvars c.accounts c.input
    pub owned : All (λ a. a.owner ≡ program_id → C a.cell) c.accounts

  -- A call is proper, and others do what the runtime lets them do.
  abbrev pub IsFair : Event → Type 0
  IsFair (call c) = IsProper c
  IsFair (others f) = Spares C f

  -- A call that succeeds is on an account, which the program owns.
  pub none_fails :
      (sysvars : Sysvars) (input : Bytes) (st : Store)
      → (process_instruction P sysvars program_id [] input st).0 ≢ ok tt
  unfolding process_instruction
  none_fails sysvars input st = ground (arith, P.no_account_law)

  pub owned_if_ok :
      (sysvars : Sysvars) (account : AccountInfo) (iter : List AccountInfo) (input : Bytes)
      (st : Store)
      → (process_instruction P sysvars program_id (account ∷ iter) input st).0 ≡ ok tt
      → account.owner ≡ program_id
  unfolding process_instruction
  owned_if_ok sysvars account iter input st = ground (arith, P.next_law account iter)

  -- A call on an account of the program begins as a scene.
  abbrev pub scene :
      (sysvars : Sysvars) (account : AccountInfo) (iter : List AccountInfo) (input : Bytes)
      (st : Store)
      → IsLedger st
      → IsInput sysvars (account ∷ iter) input
      → C account.cell
      → Scene
  scene sysvars account iter input st l is_input own = record {
    P = P;
    sysvars = sysvars;
    account = account;
    iter = iter;
    input = input;
    s = (l.states account.cell own).0;
    st = st;
    holds = (l.states account.cell own).1;
    idle = l.idle;
    is_input = is_input;
  }

  -- An instruction that succeeds leaves a ledger.
  scene-IsLedger :
      (sysvars : Sysvars) (account : AccountInfo) (iter : List AccountInfo) (input : Bytes)
      (st : Store) (l : IsLedger st) (is_input : IsInput sysvars (account ∷ iter) input)
      (own : C account.cell)
      → let x = scene sysvars account iter input st l is_input own in
        (run x program_id).0 ≡ ok tt → IsLedger (run x program_id).1
  scene-IsLedger sysvars account iter input st l is_input own e =
      let x = scene sysvars account iter input st l is_input own in
      let ((t, _, holds), untouched) = process_instruction-Permitted x program_id e in
      let still = run-AllIdle x program_id e in
      record {
        idle = still;
        states = λ j mine. elim (ℕ_discrete account.cell j) [
          | yes same ↦ (t, subst (λ k. Holds P k t (run x program_id).1) same holds)
          | no ne ↦ (
            (l.states j mine).0,
            record {
              idle = still j;
              stored = untouched j ne ∙ (l.states j mine).1.stored;
              in_range = (l.states j mine).1.in_range;
            },
          )
        ];
      }

  -- So does what other programs do.
  others-IsLedger : (f : Store → Store) (st : Store) → Spares C f → IsLedger st → IsLedger (f st)
  others-IsLedger f st spares l = record {
    idle = spares.idle st l.idle;
    states = λ i ours.
        let (s, holds) = l.states i ours in
        (
          s,
          record {
            idle = spares.idle st l.idle i;
            stored = spares.same st i ours ∙ holds.stored;
            in_range = holds.in_range;
          },
        );
  }
