-- ===== src/Exec.antt =====
-- Results, panics and explicit state. `&mut S` in the source is a state `S` that is passed on; what
-- was written before an error stays written, as in Rust.
use alpenglow_vote.Base.{Bool, true, false, Option, none, some}
use alpenglow_vote.Error.{ProgramError}

pub data Outcome (A : Type 0) : Type 0 where
  ok : A → Outcome A
  err : ProgramError → Outcome A
  panic : Outcome A

abbrev pub Exec : Type 0 → Type 0 → Type 0
Exec S A = S → Outcome A × S

-- What follows a step: nothing after an error or a panic, as with `?`.
abbrev pub continue : {S A B : Type 0} → (A → Exec S B) → Outcome A × S → Outcome B × S
continue f (ok a, s) = f a s
continue f (err e, s) = (err e, s)
continue f (panic, s) = (panic, s)

infixl 5 ◌>>=◌ ◌>>◌
abbrev pub ◌>>=◌ : {S A B : Type 0} → Exec S A → (A → Exec S B) → Exec S B
◌>>=◌ m f s = continue f (m s)

abbrev pub ◌>>◌ : {S B : Type 0} → Exec S (Unit {0}) → Exec S B → Exec S B
m >> k = m >>= λ _. k

module _ {S A : Type 0} where
  abbrev pub pure : A → Exec S A
  pure a s = (ok a, s)

  -- a result that depends on no state
  abbrev pub lift : Outcome A → Exec S A
  lift r s = (r, s)

  -- `opt.ok_or(e)?`
  abbrev pub ok_or : Option A → ProgramError → Exec S A
  ok_or none e s = (err e, s)
  ok_or (some a) e s = (ok a, s)

  abbrev pub gets : (S → A) → Exec S A
  gets f s = (ok (f s), s)

module _ {S : Type 0} where
  -- `if c { return Err(e); }`
  abbrev pub fail_if : Bool → ProgramError → Exec S (Unit {0})
  fail_if true e s = (err e, s)
  fail_if false e s = (ok tt, s)

  abbrev pub modify : (S → S) → Exec S (Unit {0})
  modify f s = (ok tt, f s)

-- The state that a call of a handler leaves: `t` where it succeeded, and `s` where it failed.
abbrev pub after {ℓ} : {A : Type 0} {S : Type ℓ} → Outcome A → S → S → S
after (ok _) s t = t
after (err _) s t = s
after panic s t = s
