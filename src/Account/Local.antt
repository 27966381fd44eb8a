-- ===== src/Account/Local.antt =====
-- Code over the accounts that reads and writes only some of them: rules for the steps of
-- program/src/processor.rs, accounting.rs and vote_processor.rs.
pub mod Borrows
use alpenglow_vote.Base.{
  ℕ, zero, suc, ◌≡◌, refl, ap, ◌∙◌, Bool, true, false, Option, none, some, arith,
}
use mathlib.Core.Path.{subst}
use native.Mathlib.Decide.{ℕ_discrete}
use alpenglow_vote.Error.{ProgramError, account_borrow_failed}
use alpenglow_vote.Exec.{
  continue, Outcome, ok, err, panic, Exec, ◌>>=◌, ◌>>◌, lift, ok_or, gets, fail_if, modify,
}
use alpenglow_vote.Pod.{Bytes}
use alpenglow_vote.Account.{
  set_contents_borrow, Store, run_shared, borrow_by, update_by, lamports_by, lamports_of, Cells,
  Borrow, free, shared, exclusive, put, borrow_data, borrow_mut_data, borrow_mut_lamports,
  try_lamports,
}

module _ (C : ℕ → Type 0) where
  -- The stores have the same accounts in `C`.
  abbrev pub Agree : Store → Store → Type 0
  Agree st st' = (j : ℕ) → C j → st j ≡ st' j

  abbrev pub Unchanged : Store → Store → Type 0
  Unchanged st u = (j : ℕ) → (C j → ⊥) → u j ≡ st j

  -- What `m` does to the accounts in `C` depends on these alone, its result too, and it leaves all
  -- others.
  pub record IsLocal {A : Type 0} (m : Exec Store A) : Type 0 where
    pub same_result : (st st' : Store) → Agree st st' → (m st).0 ≡ (m st').0
    pub same_cells : (st st' : Store) → Agree st st' → Agree (m st).1 (m st').1
    pub rest : (st : Store) → Unchanged st (m st).1

  -- A step whose result and state are functions of no state.
  pub lift-IsLocal : {A : Type 0} (r : Outcome A) → IsLocal (lift r)
  lift-IsLocal r = record {
    same_result = λ st st' h. refl;
    same_cells = λ st st' h. h;
    rest = λ st j out. refl;
  }

  pub ok_or-IsLocal : {A : Type 0} (o : Option A) (e : ProgramError) → IsLocal (ok_or o e)
  ok_or-IsLocal none e = lift-IsLocal (err e)
  ok_or-IsLocal (some a) e = lift-IsLocal (ok a)

  pub fail_if-IsLocal : (b : Bool) (e : ProgramError) → IsLocal (fail_if b e)
  fail_if-IsLocal true e = lift-IsLocal (err e)
  fail_if-IsLocal false e = lift-IsLocal (ok tt)

  continue-result :
      {A B : Type 0} (f : A → Exec Store B)
      → ((a : A) → IsLocal (f a))
      → (r : Outcome A) (t t' : Store) → Agree t t'
      → (continue f (r, t)).0 ≡ (continue f (r, t')).0
  continue-result f hf (ok a) t t' h = (hf a).same_result t t' h
  continue-result f hf (err e) t t' h = refl
  continue-result f hf panic t t' h = refl

  continue-cells :
      {A B : Type 0} (f : A → Exec Store B)
      → ((a : A) → IsLocal (f a))
      → (r : Outcome A) (t t' : Store) → Agree t t'
      → Agree (continue f (r, t)).1 (continue f (r, t')).1
  continue-cells f hf (ok a) t t' h = (hf a).same_cells t t' h
  continue-cells f hf (err e) t t' h = h
  continue-cells f hf panic t t' h = h

  continue-rest :
      {A B : Type 0} (f : A → Exec Store B)
      → ((a : A) → IsLocal (f a))
      → (r : Outcome A) (t : Store) → Unchanged t (continue f (r, t)).1
  continue-rest f hf (ok a) t = (hf a).rest t
  continue-rest f hf (err e) t = λ j out. refl
  continue-rest f hf panic t = λ j out. refl

  pub bind-IsLocal :
      {A B : Type 0} (m : Exec Store A) (f : A → Exec Store B)
      → IsLocal m
      → ((a : A) → IsLocal (f a))
      → IsLocal (m >>= f)
  bind-IsLocal m f hm hf = record {
    same_result = λ st st' h.
        subst (λ r. (continue f (m st)).0 ≡ (continue f (r, (m st').1)).0) (hm.same_result st st' h)
          (continue-result f hf (m st).0 (m st).1 (m st').1 (hm.same_cells st st' h));
    same_cells = λ st st' h.
        subst (λ r. Agree (continue f (m st)).1 (continue f (r, (m st').1)).1)
          (hm.same_result st st' h)
          (continue-cells f hf (m st).0 (m st).1 (m st').1 (hm.same_cells st st' h));
    rest = λ st j out. continue-rest f hf (m st).0 (m st).1 j out ∙ hm.rest st j out;
  }

  -- What follows a result may use that it is one.
  pub lift-bind-IsLocal :
      {A B : Type 0} (r : Outcome A) (f : A → Exec Store B)
      → ((a : A) → r ≡ ok a → IsLocal (f a))
      → IsLocal (lift r >>= f)
  lift-bind-IsLocal (ok a) f hf = hf a refl
  lift-bind-IsLocal (err e) f hf = lift-IsLocal (err e)
  lift-bind-IsLocal panic f hf = lift-IsLocal panic

  pub ok_or-bind-IsLocal :
      {A B : Type 0} (o : Option A) (e : ProgramError) (f : A → Exec Store B)
      → ((a : A) → IsLocal (f a))
      → IsLocal (ok_or o e >>= f)
  ok_or-bind-IsLocal none e f hf = lift-IsLocal (err e)
  ok_or-bind-IsLocal (some a) e f hf = hf a

  pub fail_if-bind-IsLocal :
      {B : Type 0} (b : Bool) (e : ProgramError) (m : Exec Store B)
      → IsLocal m
      → IsLocal (fail_if b e >> m)
  fail_if-bind-IsLocal true e m hm = lift-IsLocal (err e)
  fail_if-bind-IsLocal false e m hm = hm

  pub gets-IsLocal :
      {A : Type 0} (f : Store → A)
      → ((st st' : Store) → Agree st st' → f st ≡ f st')
      → IsLocal (gets f)
  gets-IsLocal f hf = record {
    same_result = λ st st' h. ap ok (hf st st' h);
    same_cells = λ st st' h. h;
    rest = λ st j out. refl;
  }

  module _ (i : ℕ) (own : C i) where
    put-Agree :
        (c c' : Cells) (st st' : Store) → c ≡ c' → Agree st st' → Agree (put i c st) (put i c' st')
    put-Agree c c' st st' e h j hj = ground (arith, h j hj)

    put-Unchanged : (c : Cells) (st : Store) → Unchanged st (put i c st)
    put-Unchanged c st j out = elim (ℕ_discrete i j) [
      | yes same ↦ absurd (out (subst C same own))
      | no ne ↦ ground arith
    ]

    pub modify-IsLocal : (g : Cells → Cells) → IsLocal (modify λ st. put i (g (st i)) st)
    modify-IsLocal g = record {
      same_result = λ st st' h. refl;
      same_cells = λ st st' h. put-Agree (g (st i)) (g (st' i)) st st' (ap g (h i own)) h;
      rest = λ st. put-Unchanged (g (st i)) st;
    }

    -- A step that begins by reading the account `i`.
    pub read-IsLocal :
        {A : Type 0} (f : Cells → Exec Store A)
        → ((c : Cells) → IsLocal (f c))
        → IsLocal (λ st. f (st i) st)
    read-IsLocal f hf =
        bind-IsLocal (gets λ st. st i) f (gets-IsLocal (λ st. st i) (λ st st' h. h i own)) hf

    -- A block between two writes to the account `i`, the second on every exit.
    pub around-IsLocal :
        {A : Type 0} (before back : Cells → Cells) (m : Exec Store A)
        → IsLocal m
        → IsLocal (λ st. let (r, u) = m (put i (before (st i)) st) in (r, put i (back (u i)) u))
    around-IsLocal before back m hm =
        let entered = modify-IsLocal before in
        let left = modify-IsLocal back in
        record {
          same_result = λ st st' h. hm.same_result _ _ (entered.same_cells st st' h);
          same_cells =
              λ st st' h. left.same_cells _ _ (hm.same_cells _ _ (entered.same_cells st st' h));
          rest = λ st j out.
              let inside = put i (before (st i)) st in
              left.rest (m inside).1 j out ∙ hm.rest inside j out ∙ entered.rest st j out;
        }
