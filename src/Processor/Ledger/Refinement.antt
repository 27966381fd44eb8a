-- ===== src/Processor/Ledger/Refinement.antt =====
-- The contract of Spec as an abstract machine, driven by the calls of program/src/processor.rs that are
-- made: what each call does to the state of one account, with its own sysvars and accounts.
use alpenglow_vote.Base.{ℕ, ◌≡◌, ◌≢◌, ◌∷◌, ◌∙◌, refl, List, [], All, ◌⊎◌, inl, inr}
use mathlib.Core.Path.{subst}
use native.Mathlib.Decide.{ℕ_discrete}
use alpenglow_vote.Exec.{Outcome, ok, err, panic, after}
use alpenglow_vote.Pod.{Bytes}
use alpenglow_vote.Records.{Pubkey}
use alpenglow_vote.State.{VoteState}
use alpenglow_vote.Platform.{Platform, AccountInfo, Sysvars}
use alpenglow_vote.Account.{Store}
use alpenglow_vote.Account.Laws.{Holds}
use alpenglow_vote.Spec.{Permitted}
use alpenglow_vote.Processor.{process_instruction}
use alpenglow_vote.Processor.Chain.{Event, call, others, elapse}
use alpenglow_vote.Processor.Ledger.{
  IsLedger, IsProper, IsFair, none_fails, owned_if_ok, scene, others-IsLedger,
}
use alpenglow_vote.Processor.Ledger.Guarantees.{elapse-IsLedger}
use alpenglow_vote.Processor.Safety.{process_instruction-Permitted}
use alpenglow_vote.Processor.Schedule.{Call, attempt, result}
use alpenglow_vote.Processor.Trace.{HoldsSome, HoldsSome-of_Holds, HoldsSome-map, Holds-unique}

-- The first of the accounts stands in the cell `i`.
abbrev pub IsOn : ℕ → List AccountInfo → Type 0
IsOn i [] = ⊥
IsOn i (a ∷ iter) = a.cell ≡ i

ok_cases : (r : Outcome (Unit {0})) → (r ≡ ok tt) ⊎ (r ≢ ok tt)
ok_cases (ok tt) = inl refl
ok_cases (err e) = inr (λ same. cc)
ok_cases panic = inr (λ same. cc)

after-ok : (r : Outcome (Unit {0})) (st u : Store) → r ≡ ok tt → u ≡ after r st u
after-ok r st u e = rw e

after-failed : (r : Outcome (Unit {0})) (st u : Store) → r ≢ ok tt → st ≡ after r st u
after-failed (ok tt) st u ne = absurd (ne refl)
after-failed (err e) st u ne = refl
after-failed panic st u ne = refl

module _ (P : Platform) (program_id : Pubkey) (i : ℕ) where
  -- What a call on the store `st` does to the account `i`, from the state `s` to `t`. If it succeeds
  -- and is on this account, it takes a step that the contract permits to this call's sysvars and
  -- accounts; else the state stays.
  pub data Obeys (c : Call) (st : Store) (s t : VoteState) : Type 0 where
    acted :
        result P program_id c st ≡ ok tt
        → IsOn i c.accounts
        → Permitted P c.sysvars c.accounts s t
        → Obeys c st s t
    spared : (result P program_id c st ≡ ok tt → IsOn i c.accounts → ⊥) → t ≡ s → Obeys c st s t

  -- From the store `st` the events take the account `i` from the state `s` to `u`: after each call the
  -- account stores the state that the call leads to, and what others do changes no state.
  abbrev pub Governed : List Event → Store → VoteState → VoteState → Type 0
  Governed [] st s u = u ≡ s
  Governed (call c ∷ es) st s u =
      (t : VoteState) × Obeys c st s t
      × ((attempt P program_id c st).1 i).contents ≡ P.pod_vote_state.bytes_of t
      × Governed es (attempt P program_id c st).1 t u
  Governed (others f ∷ es) st s u = Governed es (f st) s u

  module _ (C : ℕ → Type 0) (ours : C i) (st : Store) (l : IsLedger P program_id C st)
      (s : VoteState) (h : Holds P i s st) where
    ok-Obeys :
        (sysvars : Sysvars) (accounts : List AccountInfo) (input : Bytes)
        → IsProper P program_id C (record { sysvars = sysvars; accounts = accounts; input = input })
        → let c : Call = record { sysvars = sysvars; accounts = accounts; input = input } in
          result P program_id c st ≡ ok tt
          → HoldsSome P i
              (Obeys c st s)
              (process_instruction P sysvars program_id accounts input st).1
    ok-Obeys sysvars [] input proper e = absurd (none_fails P program_id C sysvars input st e)
    ok-Obeys sysvars (a ∷ iter) input proper e =
        let own = proper.owned.0 (owned_if_ok P program_id C sysvars a iter input st e) in
        let x = scene P program_id C sysvars a iter input st l proper.is_input own in
        let ((t, permitted, holds), untouched) = process_instruction-Permitted x program_id e in
        elim (ℕ_discrete a.cell i) [
          | yes on ↦
              (let start = Holds-unique P i x.s s st (subst (λ k. Holds P k x.s st) on x.holds) h in
                HoldsSome-of_Holds P i _ t _
                  (subst
                    (λ k.
                      Holds P k t (process_instruction P sysvars program_id (a ∷ iter) input st).1)
                    on holds)
                  (acted e on (subst (λ v. Permitted P sysvars (a ∷ iter) v t) start permitted)))
          | no ne ↦ record {
            state = s;
            stored = untouched i ne ∙ h.stored;
            in_range = h.in_range;
            kept = spared (λ _ on. ne on) refl;
          }
        ]

    attempt-Obeys :
        (c : Call)
        → IsProper P program_id C c
        → HoldsSome P i (Obeys c st s) (attempt P program_id c st).1
    attempt-Obeys c proper =
        let (r, u) = process_instruction P c.sysvars program_id c.accounts c.input st in
        elim (ok_cases r) [
          | inl e ↦
              (subst (HoldsSome P i (Obeys c st s)) (after-ok r st u e)
                (ok-Obeys c.sysvars c.accounts c.input proper e))
          | inr ne ↦
              (subst (HoldsSome P i (Obeys c st s)) (after-failed r st u ne)
                (HoldsSome-of_Holds P i _ s st h (spared (λ e on. ne e) refl)))
        ]

  module _ (C : ℕ → Type 0) (ours : C i) where
    -- Let nothing be borrowed and every account that the program owns hold a vote state. However many
    -- calls follow, with any accounts and any input in range, each rolled back where it fails, and
    -- whatever the runtime lets other programs do in between: an account of the program ends with the
    -- state that the contract's machine is led to by these calls. Each call that succeeds on the
    -- account takes a step that the contract permits to its own sysvars and accounts, each other call
    -- and whatever others do takes none, and after each call the account stores the machine's state.
    pub elapse-Governed :
        (es : List Event) (st : Store)
        → IsLedger P program_id C st
        → All (IsFair P program_id C) es
        → (s : VoteState) → Holds P i s st
        → HoldsSome P i (Governed es st s) (elapse P program_id es st)
    unfolding elapse
    elapse-Governed [] st l fair s h = HoldsSome-of_Holds P i _ s st h refl
    elapse-Governed (call c ∷ es) st l (proper, later) s h =
        let now = attempt-Obeys C ours st l s h c proper in
        let ledger = elapse-IsLedger P program_id C (call c ∷ []) st l (proper, tt) in
        let u = (attempt P program_id c st).1 in
        let next : Holds P i now.state u = record {
          idle = ledger.idle i;
          stored = now.stored;
          in_range = now.in_range;
        } in
        HoldsSome-map P i (Governed es u now.state) (Governed (call c ∷ es) st s)
          (elapse P program_id es u) (λ v rest. (now.state, now.kept, now.stored, rest))
          (elapse-Governed es u ledger later now.state next)
    elapse-Governed (others f ∷ es) st l (spares, later) s h =
        let ledger = others-IsLedger P program_id C f st spares l in
        let held : Holds P i s (f st) = record {
          idle = ledger.idle i;
          stored = spares.same st i ours ∙ h.stored;
          in_range = h.in_range;
        } in
        elapse-Governed es (f st) ledger later s held
