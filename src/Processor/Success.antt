-- ===== src/Processor/Success.antt =====
-- Inversion of a successful run of an arm of program/src/processor.rs: the rules for the steps by
-- which each arm begins, for any property `Q` of the store that is left.
use alpenglow_vote.Base.{◌≡◌, refl, sym, Bool, true, false, List}
use mathlib.Core.Path.{subst}
use alpenglow_vote.Error.{ProgramError}
use alpenglow_vote.Exec.{continue, Outcome, ok, err, panic, Exec, ◌>>=◌, ◌>>◌, lift, fail_if}
use alpenglow_vote.Records.{Pubkey}
use alpenglow_vote.Platform.{Platform, AccountInfo}
use alpenglow_vote.Account.{Store}
use alpenglow_vote.Processor.{next_signer}
use alpenglow_vote.Processor.Signer.{Next, next_outcome, next_signer-eq, Next-of_ok}

module _ (Q : Store → Type 0) (st : Store) where
  -- If the run succeeds, what it leaves has the property.
  abbrev pub Leaves : Outcome (Unit {0}) × Store → Type 0
  Leaves (r, st') = r ≡ ok tt → Q st'

  pub lift-Leaves :
      {A : Type 0} (r : Outcome A) (f : A → Exec Store (Unit {0}))
      → ((a : A) → r ≡ ok a → Leaves (f a st))
      → Leaves ((lift r >>= f) st)
  lift-Leaves (ok a) f next = next a refl
  lift-Leaves (err e) f next = λ h. cc
  lift-Leaves panic f next = λ h. cc

  pub fail_if-Leaves :
      (b : Bool) (e : ProgramError) (m : Exec Store (Unit {0}))
      → (b ≡ false → Leaves (m st))
      → Leaves ((fail_if b e >> m) st)
  fail_if-Leaves true e m next = λ h. cc
  fail_if-Leaves false e m next = next refl

  pub next_signer-Leaves :
      (P : Platform) (front : List AccountInfo)
      (f : Pubkey × List AccountInfo → Exec Store (Unit {0}))
      → ((k : Pubkey) (rest : List AccountInfo) → Next front k rest → Leaves (f (k, rest) st))
      → Leaves ((next_signer P front >>= f) st)
  next_signer-Leaves P front f next =
      subst (λ x. Leaves (continue f x)) (sym (next_signer-eq P front st))
        (lift-Leaves (next_outcome P front) f
          (λ (k, rest) e. next k rest (Next-of_ok P front rest k e)))
