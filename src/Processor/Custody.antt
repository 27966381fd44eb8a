-- ===== src/Processor/Custody.antt =====
-- What an account keeps while its withdrawer stays away, over any number of instructions of
-- program/src/processor.rs on one store.
use alpenglow_vote.Base.{ℕ, ◌<◌, ◌≤◌, ◌≡◌, ◌≢◌, ◌∷◌, refl, sym, ◌∙◌, arith}
use mathlib.Core.Path.{subst}
use native.Mathlib.Decide.{ℕ_discrete}
use alpenglow_vote.Exec.{ok}
use alpenglow_vote.Records.{Pubkey}
use alpenglow_vote.State.{VoteState}
use alpenglow_vote.Platform.{Platform}
use alpenglow_vote.Account.{Store}
use alpenglow_vote.Account.Laws.{Holds}
use alpenglow_vote.Spec.{Authorized, signed}
use alpenglow_vote.Spec.History.{History, History-SameFixed}
use alpenglow_vote.Spec.Ownership.{SameOwned, Permitted-SameOwned}
use alpenglow_vote.Processor.Refines.{Scene}
use alpenglow_vote.Processor.Safety.{run}
use alpenglow_vote.Processor.Transfers.{Transfers, kept, paid, process_instruction-Transfers}
use alpenglow_vote.Processor.Trace.{
  OnStep, IsClosed, HoldsSome, HoldsSome-of_Holds, found, Trace, begin, step, elsewhere, Every,
  Trace-keeps,
}

-- An instruction on the account `i` does not have `k` as a signer, or as a key derived with a seed
-- from one.
abbrev pub IsUnauthorized : Platform → ℕ → Pubkey → OnStep
IsUnauthorized P i k sysvars account iter =
    account.cell ≡ i → Authorized P sysvars (account ∷ iter) k → ⊥

-- no condition on what others do
abbrev pub AnyChange : (Store → Store) → Type 0
AnyChange f = Unit {0}

-- The vote state `t` has of `s` the version and all that is the withdrawer's.
pub record IsOwned (s t : VoteState) : Type 0 where
  pub same_version : t.version ≡ s.version
  pub same_owned : SameOwned s t

-- The account `i`, which held the vote state `s` in the store `st`, in the store `u`.
pub record IsKept (P : Platform) (i : ℕ) (s : VoteState) (st u : Store) : Type 0 where
  pub holds : HoldsSome P i (IsOwned s) u
  pub no_loss : (st i).lamports ≤ (u i).lamports

module _ (x : Scene) (u : Store) (i : ℕ) where
  open x use {P, sysvars, account, iter}

  other_no_loss : account.cell ≢ i → Transfers x u → (x.st i).lamports ≤ (u i).lamports
  other_no_loss ne (kept same) = omega (arith, same i)
  other_no_loss ne (paid j n rent _ _ _ _ _ _ moves) = ground (arith, moves i)

  own_no_loss :
      (Authorized P sysvars (account ∷ iter) x.s.authorized_withdrawer → ⊥)
      → Transfers x u
      → (x.st i).lamports ≤ (u i).lamports
  own_no_loss unsigned (kept same) = omega (arith, same i)
  own_no_loss unsigned (paid j n rent signs _ _ _ _ _ _) = absurd (unsigned (signed signs))

module _ (P : Platform) (i : ℕ) (s : VoteState) where
  abbrev Unsigned : OnStep
  Unsigned = IsUnauthorized P i s.authorized_withdrawer

  IsOwned-IsClosed : 0 < s.version → IsClosed P i Unsigned (IsOwned s)
  IsOwned-IsClosed live sysvars account iter a t own unsigned before permitted =
      let still : 0 < a.version = omega (arith, before.same_version) in
      let fixed =
        History-SameFixed P still (History.next sysvars (account ∷ iter) History.here permitted) in
      let owned =
        Permitted-SameOwned P still (rw before.same_owned.authorized_withdrawer (unsigned own))
          permitted in
      record {
        same_version = fixed.version ∙ before.same_version;
        same_owned = record {
          authorized_withdrawer =
              owned.authorized_withdrawer ∙ before.same_owned.authorized_withdrawer;
          node_pubkey = owned.node_pubkey ∙ before.same_owned.node_pubkey;
          commission = owned.commission ∙ before.same_owned.commission;
        };
      }

-- One instruction takes no lamports from an account whose withdrawer does not authorize it.
step_no_loss :
    (x : Scene) (program_id : Pubkey) (i : ℕ) (s : VoteState)
    → (run x program_id).0 ≡ ok tt
    → HoldsSome x.P i (IsOwned s) x.st
    → IsUnauthorized x.P i s.authorized_withdrawer x.sysvars x.account x.iter
    → (x.st i).lamports ≤ ((run x program_id).1 i).lamports
step_no_loss x program_id i s e before unsigned =
    let transfers = process_instruction-Transfers x program_id e in
    elim (ℕ_discrete x.account.cell i) [
      | yes own ↦
          let absent =
            subst (λ k. Authorized x.P x.sysvars (x.account ∷ x.iter) k → ⊥)
              (sym before.kept.same_owned.authorized_withdrawer) (unsigned own) in
          own_no_loss x (run x program_id).1 i
            (subst (λ a. Authorized x.P x.sysvars (x.account ∷ x.iter) a.authorized_withdrawer → ⊥)
              (sym (found x i (IsOwned s) before own)) absent)
            transfers
      | no ne ↦ other_no_loss x (run x program_id).1 i ne transfers
    ]

module _ (P : Platform) (program_id : Pubkey) (C : ℕ → Type 0) (i : ℕ) (s : VoteState) (ours : C i)
    (live : 0 < s.version) where
  Trace-IsOwned :
      {st u : Store}
      → HoldsSome P i (IsOwned s) st
      → (past : Trace P program_id C st u) → Every P program_id C (Unsigned P i s) AnyChange past
      → HoldsSome P i (IsOwned s) u
  Trace-IsOwned h past absent =
      Trace-keeps P program_id C i (Unsigned P i s) AnyChange (IsOwned s) ours
        (IsOwned-IsClosed P i s live) h past absent

  Trace-no_loss :
      {st u : Store}
      → HoldsSome P i (IsOwned s) st
      → (past : Trace P program_id C st u) → Every P program_id C (Unsigned P i s) AnyChange past
      → (st i).lamports ≤ (u i).lamports
  Trace-no_loss h begin _ = omega arith
  Trace-no_loss {st} {u} h (step {t = t} x past hp hst e left) (earlier, unsigned) =
      let before = subst (HoldsSome P i (IsOwned s)) (sym hst) (Trace-IsOwned h past earlier) in
      let so_far : (st i).lamports ≤ (x.st i).lamports =
        subst (λ v. (st i).lamports ≤ (v i).lamports) (sym hst) (Trace-no_loss h past earlier) in
      let here : (x.st i).lamports ≤ (u i).lamports =
        subst (λ v. (x.st i).lamports ≤ (v i).lamports) left
          (step_no_loss x program_id i s e
            (subst (λ Q. HoldsSome Q i (IsOwned s) x.st) (sym hp) before)
            (subst (λ Q. IsUnauthorized Q i s.authorized_withdrawer x.sysvars x.account x.iter)
              (sym hp) unsigned)) in
      omega (arith, so_far, here)
  Trace-no_loss {st} {u} h (elsewhere {t = t} f past spares left) (earlier, _) =
      let so_far = Trace-no_loss h past earlier in
      let here = subst (λ v. (t i).lamports ≤ (v i).lamports) left (spares.credited t i ours) in
      omega (arith, so_far, here)

  -- Let an account of the program hold an initialized vote state. However many instructions succeed in
  -- turn, on this account and on others that hold vote states, with input in range and nothing
  -- borrowed before them, and whatever the runtime lets other programs do in between: if none of the
  -- instructions on this account is authorized by its withdrawer, then it still holds a vote state,
  -- with the same version, withdrawer, validator identity and commission, and has lost no lamports.
  pub withdrawer_only :
      {st u : Store}
      → Holds P i s st
      → (past : Trace P program_id C st u) → Every P program_id C (Unsigned P i s) AnyChange past
      → IsKept P i s st u
  withdrawer_only h past absent =
      let first = HoldsSome-of_Holds P i (IsOwned s) s _ h (record {
        same_version = refl;
        same_owned = record { authorized_withdrawer = refl; node_pubkey = refl; commission = refl };
      }) in
      record { holds = Trace-IsOwned first past absent; no_loss = Trace-no_loss first past absent }
