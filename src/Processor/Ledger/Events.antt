-- ===== src/Processor/Ledger/Events.antt =====
-- Any events, calls of program/src/processor.rs among them, on a store in which every account of
-- the program holds a vote state: the calls that succeed form a trace.
use alpenglow_vote.Base.{ℕ, ◌≡◌, ◌∷◌, List, [], All, refl}
use alpenglow_vote.Exec.{Outcome, ok, err, panic, after}
use alpenglow_vote.Records.{Pubkey}
use alpenglow_vote.Platform.{Platform, AccountInfo, Sysvars}
use alpenglow_vote.Pod.{Bytes}
use alpenglow_vote.Account.{Store}
use alpenglow_vote.Spec.Ranges.{IsInput}
use alpenglow_vote.Processor.{process_instruction}
use alpenglow_vote.Processor.Trace.{OnStep, Spares, Trace, step, elsewhere, Every}
use alpenglow_vote.Processor.Chain.{Event, call, others, elapse}
use alpenglow_vote.Processor.Ledger.{
  IsLedger, none_fails, owned_if_ok, scene, scene-IsLedger, others-IsLedger, IsFair,
}
use alpenglow_vote.Processor.Schedule.{attempt}

-- A property of an instruction on a list of accounts, on a call, and on an event, with another one
-- of what others do.
abbrev pub OnAccounts : OnStep → Sysvars → List AccountInfo → Type 0
OnAccounts V sysvars [] = Unit {0}
OnAccounts V sysvars (a ∷ iter) = V sysvars a iter

abbrev pub OnEvent : OnStep → ((Store → Store) → Type 0) → Event → Type 0
OnEvent V W (call c) = OnAccounts V c.sysvars c.accounts
OnEvent V W (others f) = W f

module _ (P : Platform) (program_id : Pubkey) (C : ℕ → Type 0) (V : OnStep)
    (W : (Store → Store) → Type 0) (st : Store) where
  -- From `st`, instructions with the property `V` and others' changes with the property `W` have led
  -- to `u`, which is a ledger.
  pub record Reached (u : Store) : Type 0 where
    pub past : Trace P program_id C st u
    pub every : Every P program_id C V W past
    pub ledger : IsLedger P program_id C u

  ok-Reached :
      (sysvars : Sysvars) (accounts : List AccountInfo) (input : Bytes) (u : Store)
      → Reached u
      → IsInput sysvars accounts input
      → All (λ a. a.owner ≡ program_id → C a.cell) accounts
      → OnAccounts V sysvars accounts
      → (process_instruction P sysvars program_id accounts input u).0 ≡ ok tt
      → Reached (process_instruction P sysvars program_id accounts input u).1
  ok-Reached sysvars [] input u r is_input owned v e =
      absurd (none_fails P program_id C sysvars input u e)
  ok-Reached sysvars (a ∷ iter) input u r is_input (owned, _) v e =
      let own = owned (owned_if_ok P program_id C sysvars a iter input u e) in
      let x = scene P program_id C sysvars a iter input u r.ledger is_input own in
      record {
        past = step x r.past refl refl e refl;
        every = (r.every, v);
        ledger = scene-IsLedger P program_id C sysvars a iter input u r.ledger is_input own e;
      }

  after-Reached :
      (r : Outcome (Unit {0})) (u u' : Store)
      → Reached u
      → (r ≡ ok tt → Reached u')
      → Reached (after r u u')
  after-Reached (ok tt) u u' before next = next refl
  after-Reached (err e) u u' before next = before
  after-Reached panic u u' before next = before

  others-Reached : (f : Store → Store) (u : Store) → Reached u → Spares C f → W f → Reached (f u)
  others-Reached f u r spares w = record {
    past = elsewhere f r.past spares refl;
    every = (r.every, w);
    ledger = others-IsLedger P program_id C f u spares r.ledger;
  }

  -- Every event, also a call that fails, leads from a ledger to a ledger.
  pub elapse-Reached :
      (es : List Event) (u : Store)
      → Reached u
      → All (IsFair P program_id C) es
      → All (OnEvent V W) es
      → Reached (elapse P program_id es u)
  unfolding elapse
  elapse-Reached [] u r _ _ = r
  elapse-Reached (call c ∷ es) u r (proper, later) (v, vs) =
      let (result, u') = process_instruction P c.sysvars program_id c.accounts c.input u in
      elapse-Reached es (attempt P program_id c u).1
        (after-Reached result u u' r
          (ok-Reached c.sysvars c.accounts c.input u r proper.is_input proper.owned v))
        later vs
  elapse-Reached (others f ∷ es) u r (spares, later) (w, vs) =
      elapse-Reached es (f u) (others-Reached f u r spares w) later vs
