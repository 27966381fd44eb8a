-- ===== src/Processor/Trace.antt =====
-- The store over time: instructions of program/src/processor.rs that succeed, each on an account of
-- its own choice, and what other programs do in between.
use alpenglow_vote.Base.{ℕ, ◌≤◌, ◌≡◌, ◌≢◌, ◌∷◌, ◌∙◌, sym, ap, List}
use mathlib.Core.Path.{subst}
use native.Mathlib.Decide.{ℕ_discrete}
use alpenglow_vote.Exec.{ok}
use alpenglow_vote.Records.{Pubkey}
use alpenglow_vote.State.{VoteState}
use alpenglow_vote.State.Ranges.{IsVoteState}
use alpenglow_vote.Platform.{Platform, AccountInfo, Sysvars}
use alpenglow_vote.Account.{Store}
use alpenglow_vote.Account.Laws.{Holds}
use alpenglow_vote.Spec.{Permitted}
use alpenglow_vote.Processor.Idle.{AllIdle}
use alpenglow_vote.Processor.Refines.{Scene}
use alpenglow_vote.Processor.Safety.{run, process_instruction-Permitted}

-- What the runtime lets other programs do to the accounts in `C`, which they do not own: no change
-- of the data, no debit, and no borrow left behind.
pub record Spares (C : ℕ → Type 0) (f : Store → Store) : Type 0 where
  pub idle : (st : Store) → AllIdle st → AllIdle (f st)
  pub same : (st : Store) (i : ℕ) → C i → (f st i).contents ≡ (st i).contents
  pub credited : (st : Store) (i : ℕ) → C i → (st i).lamports ≤ (f st i).lamports

-- A property of an instruction's sysvars, its account and those after it.
abbrev pub OnStep : Type 1
OnStep = Sysvars → AccountInfo → List AccountInfo → Type 0

-- Data holds one vote state.
pub Holds-unique :
    (P : Platform) (i : ℕ) (s t : VoteState) (st : Store) → Holds P i s st → Holds P i t st → s ≡ t
Holds-unique P i s t st hs ht =
    sym (P.pod_vote_state.cast_law s hs.in_range)
    ∙ ap P.pod_vote_state.from_bytes (sym hs.stored ∙ ht.stored)
    ∙ P.pod_vote_state.cast_law t ht.in_range

-- The account `i` has a vote state with the property `R`.
pub record HoldsSome (P : Platform) (i : ℕ) (R : VoteState → Type 0) (u : Store) : Type 0 where
  pub state : VoteState
  pub stored : (u i).contents ≡ P.pod_vote_state.bytes_of state
  pub in_range : IsVoteState P.bls_pubkey_bound state
  pub kept : R state

pub HoldsSome-map :
    (P : Platform) (i : ℕ) (R Q : VoteState → Type 0) (u : Store)
    → ((t : VoteState) → R t → Q t)
    → HoldsSome P i R u
    → HoldsSome P i Q u
HoldsSome-map P i R Q u f h = record {
  state = h.state;
  stored = h.stored;
  in_range = h.in_range;
  kept = f h.state h.kept;
}

pub HoldsSome-of_Holds :
    (P : Platform) (i : ℕ) (R : VoteState → Type 0) (s : VoteState) (st : Store)
    → Holds P i s st
    → R s
    → HoldsSome P i R st
HoldsSome-of_Holds P i R s st h r = record {
  state = s;
  stored = h.stored;
  in_range = h.in_range;
  kept = r;
}

-- Permitted steps of `V`-instructions on the account `i` keep the property `R`.
abbrev pub IsClosed : Platform → ℕ → OnStep → (VoteState → Type 0) → Type 0
IsClosed P i V R =
    (sysvars : Sysvars) (account : AccountInfo) (iter : List AccountInfo) (s t : VoteState)
    → account.cell ≡ i
    → V sysvars account iter
    → R s
    → Permitted P sysvars (account ∷ iter) s t
    → R t

-- What the account of an instruction holds is the state in which the instruction finds it.
pub found :
    (x : Scene) (i : ℕ) (R : VoteState → Type 0) (before : HoldsSome x.P i R x.st)
    → x.account.cell ≡ i
    → x.s ≡ before.state
found x i R before own =
    let held : Holds x.P i before.state x.st = record {
      idle = x.idle i;
      stored = before.stored;
      in_range = before.in_range;
    } in
    Holds-unique x.P i x.s before.state x.st (subst (λ c. Holds x.P c x.s x.st) own x.holds) held

module _ (x : Scene) (program_id : Pubkey) (e : (run x program_id).0 ≡ ok tt) (i : ℕ) (V : OnStep)
    (R : VoteState → Type 0) (closed : IsClosed x.P i V R) (before : HoldsSome x.P i R x.st) where
  open x use {P, sysvars, account, iter}

  own-HoldsSome : V sysvars account iter → account.cell ≡ i → HoldsSome P i R (run x program_id).1
  own-HoldsSome v own =
      let ((t, permitted, holds), _) = process_instruction-Permitted x program_id e in
      let now = subst (λ c. Holds P c t (run x program_id).1) own holds in
      record {
        state = t;
        stored = now.stored;
        in_range = now.in_range;
        kept = closed sysvars account iter before.state t own v before.kept (
            subst (λ a. Permitted P sysvars (account ∷ iter) a t) (found x i R before own)
              permitted);
      }

  other-HoldsSome : account.cell ≢ i → HoldsSome P i R (run x program_id).1
  other-HoldsSome ne =
      let (_, untouched) = process_instruction-Permitted x program_id e in
      record {
        state = before.state;
        stored = untouched i ne ∙ before.stored;
        in_range = before.in_range;
        kept = before.kept;
      }

  run-HoldsSome : V sysvars account iter → HoldsSome P i R (run x program_id).1
  run-HoldsSome v = elim (ℕ_discrete account.cell i) [
    | yes own ↦ own-HoldsSome v own
    | no ne ↦ other-HoldsSome ne
  ]

module _ (P : Platform) (program_id : Pubkey) (C : ℕ → Type 0) where
  -- From the store `st` instructions that succeed and other programs have led to another one. Each
  -- instruction begins as a `Scene`: its account holds a vote state, nothing is borrowed and the
  -- input is in range. (A failed instruction is rolled back by the runtime.)
  pub data Trace (st : Store) : Store → Type 0 where
    begin : Trace st st
    step :
        {t u : Store} (x : Scene)
        → Trace st t
        → x.P ≡ P
        → x.st ≡ t
        → (run x program_id).0 ≡ ok tt
        → (run x program_id).1 ≡ u
        → Trace st u
    elsewhere : {t u : Store} (f : Store → Store) → Trace st t → Spares C f → f t ≡ u → Trace st u

  -- Every instruction of the trace has the property `V`, and all that others do has `W`.
  abbrev pub Every : {st u : Store} → OnStep → ((Store → Store) → Type 0) → Trace st u → Type 0
  Every V W begin = Unit {0}
  Every V W (step x past _ _ _ _) = Every V W past × V x.sysvars x.account x.iter
  Every V W (elsewhere f past _ _) = Every V W past × W f

  -- What permitted steps keep, an account of the program keeps over a trace.
  pub Trace-keeps :
      {st u : Store} (i : ℕ) (V : OnStep) (W : (Store → Store) → Type 0) (R : VoteState → Type 0)
      → C i
      → IsClosed P i V R
      → HoldsSome P i R st
      → (past : Trace st u) → Every V W past
      → HoldsSome P i R u
  Trace-keeps i V W R ours closed h begin _ = h
  Trace-keeps i V W R ours closed h (step x past hp hst e left) (earlier, v) =
      let before =
        subst (HoldsSome P i R) (sym hst) (Trace-keeps i V W R ours closed h past earlier) in
      subst (HoldsSome P i R) left (
        subst (λ Q. HoldsSome Q i R (run x program_id).1) hp
          (run-HoldsSome x program_id e i V R (subst (λ Q. IsClosed Q i V R) (sym hp) closed)
            (subst (λ Q. HoldsSome Q i R x.st) (sym hp) before) v))
  Trace-keeps i V W R ours closed h (elsewhere {t = t} f past spares left) (earlier, w) =
      let before = Trace-keeps i V W R ours closed h past earlier in
      subst (HoldsSome P i R) left (record {
        state = before.state;
        stored = spares.same t i ours ∙ before.stored;
        in_range = before.in_range;
        kept = before.kept;
      })
