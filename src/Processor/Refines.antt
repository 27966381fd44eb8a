-- ===== src/Processor/Refines.antt =====
-- When a run of an instruction of program/src/processor.rs meets the contract of Spec, and the
-- rules for the steps by which each arm begins.
use alpenglow_vote.Base.{
  ℕ, ◌≡◌, ◌≢◌, refl, sym, true, false, Bool, Option, some, none, List, ◌∷◌, arith,
}
use alpenglow_vote.Error.{ProgramError}
use mathlib.Core.Path.{subst}
use alpenglow_vote.Exec.{
  continue, Outcome, ok, err, panic, Exec, ◌>>=◌, ◌>>◌, lift, ok_or, fail_if, after,
}
use alpenglow_vote.Records.{Pubkey}
use alpenglow_vote.State.{VoteState}
use alpenglow_vote.State.Ranges.{IsVoteState}
use alpenglow_vote.Platform.{Platform, AccountInfo, Sysvars}
use alpenglow_vote.Account.{Store, cast_mut, borrow_mut_data}
use alpenglow_vote.Account.Laws.{IsIdle, Holds, write, borrow_mut_data-cast_mut}
use alpenglow_vote.Pod.{Bytes}
use alpenglow_vote.Spec.{Permitted}
use alpenglow_vote.Spec.Ranges.{IsInput}
use alpenglow_vote.Processor.{next_signer}
use alpenglow_vote.Processor.Signer.{Next, next_outcome, next_signer-eq, Next-of_ok}

-- An instruction about to run: its vote account `account` holds the vote state `s`, the accounts
-- after it are `iter`, and nothing is borrowed.
pub record Scene : Type 0 where
  pub P : Platform
  pub sysvars : Sysvars
  pub account : AccountInfo
  pub iter : List AccountInfo
  pub input : Bytes
  pub s : VoteState
  pub st : Store
  pub holds : Holds P account.cell s st
  pub idle : (j : ℕ) → IsIdle j st
  pub is_input : IsInput sysvars (account ∷ iter) input

module _ (x : Scene) where
  open x use {P, sysvars, account, iter, s, st, holds}
  open P use {bls_pubkey_bound}

  abbrev accounts : List AccountInfo
  accounts = account ∷ iter

  abbrev i : ℕ
  i = account.cell

  -- A run from `st`, where account `i` holds `s`, that ends with a result and a store. A success
  -- leaves a permitted state in account `i` and the data of all others; a failure leaves all data.
  abbrev pub Refines : Outcome (Unit {0}) → Store → Type 0
  Refines (ok _) st' =
      ((t : VoteState) × Permitted P sysvars accounts s t × Holds P i t st')
      × ((j : ℕ) → i ≢ j → (st' j).contents ≡ (st j).contents)
  Refines (err _) st' = (j : ℕ) → (st' j).contents ≡ (st j).contents
  Refines panic st' = (j : ℕ) → (st' j).contents ≡ (st j).contents

  abbrev pub IsRefining : Outcome (Unit {0}) × Store → Type 0
  IsRefining (r, st') = Refines r st'

  -- The first steps of an arm leave the store alone: if one fails, nothing has changed.
  pub lift-refines :
      {A : Type 0} (r : Outcome A) (f : A → Exec Store (Unit {0}))
      → ((a : A) → r ≡ ok a → IsRefining (f a st))
      → IsRefining ((lift r >>= f) st)
  lift-refines (ok a) f next = next a refl
  lift-refines (err e) f next = λ j. refl
  lift-refines panic f next = λ j. refl

  pub ok_or-refines :
      {A : Type 0} (o : Option A) (e : ProgramError) (f : A → Exec Store (Unit {0}))
      → ((a : A) → o ≡ some a → IsRefining (f a st))
      → IsRefining ((ok_or o e >>= f) st)
  ok_or-refines none e f next = λ j. refl
  ok_or-refines (some a) e f next = next a refl

  pub fail_if-refines :
      (b : Bool) (e : ProgramError) (m : Exec Store (Unit {0}))
      → (b ≡ false → IsRefining (m st))
      → IsRefining ((fail_if b e >> m) st)
  fail_if-refines true e m next = λ j. refl
  fail_if-refines false e m next = next refl

  -- A step that only reads the store.
  pub read-refines :
      {A : Type 0} (m : Exec Store A) (r : Outcome A) (f : A → Exec Store (Unit {0}))
      → m st ≡ (r, st)
      → ((a : A) → r ≡ ok a → IsRefining (f a st))
      → IsRefining ((m >>= f) st)
  read-refines m r f e next = subst (λ x. IsRefining (continue f x)) (sym e) (lift-refines r f next)

  pub next_signer-refines :
      (front : List AccountInfo) (f : Pubkey × List AccountInfo → Exec Store (Unit {0}))
      → ((k : Pubkey) (rest : List AccountInfo) → Next front k rest → IsRefining (f (k, rest) st))
      → IsRefining ((next_signer P front >>= f) st)
  next_signer-refines front f next =
      read-refines (next_signer P front) (next_outcome P front) f (next_signer-eq P front st)
        (λ (k, rest) e. next k rest (Next-of_ok P front rest k e))

  -- writing back what was there
  same_contents : (j : ℕ) → (write P i s st j).contents ≡ (st j).contents
  same_contents j = ground (arith, holds.stored)

  written-Refines :
      (r : Outcome (Unit {0})) (left t : VoteState)
      → left ≡ after r s t
      → (r ≡ ok tt → Permitted P sysvars accounts s t × IsVoteState bls_pubkey_bound t)
      → Refines r (write P i left st)
  written-Refines (ok tt) left t e permitted = rw e (
    (
      t,
      (permitted refl).0,
      record {
        idle = record { lamports_free = ground arith; contents_free = ground arith };
        stored = ground arith;
        in_range = (permitted refl).1;
      },
    ),
    λ j ne. ground arith,
  )
  written-Refines (err _) left t e permitted = rw e same_contents
  written-Refines panic left t e permitted = rw e same_contents

  -- A handler over `&mut VoteState` that succeeds only with a permitted state `t`, and leaves
  -- `s` where it fails.
  pub write-refines :
      (blocked mismatch : Outcome (Unit {0})) (body : Exec VoteState (Unit {0})) (t : VoteState)
      → (body s).1 ≡ after (body s).0 s t
      → ((body s).0 ≡ ok tt → Permitted P sysvars accounts s t × IsVoteState bls_pubkey_bound t)
      → IsRefining (borrow_mut_data blocked i (cast_mut P mismatch body) st)
  write-refines blocked mismatch body t left permitted =
      rw (borrow_mut_data-cast_mut P blocked mismatch i body s st holds)
        (written-Refines (body s).0 (body s).1 t left permitted)
