-- ===== src/Processor/Schedule.antt =====
-- The order in which instructions of program/src/processor.rs run, where they have no account in
-- common.
use alpenglow_vote.Base.{
  ℕ, ◌≡◌, refl, sym, ap, ◌∙◌, List, [], ◌∷◌, All, Bool, true, false, Bool-cases, inl, inr,
}
use mathlib.Core.Path.{subst, fun_ext}
use alpenglow_vote.Exec.{Outcome, Exec, after, ok, err, panic, lift, ◌>>=◌}
use alpenglow_vote.Pod.{Bytes}
use alpenglow_vote.Records.{Pubkey}
use alpenglow_vote.Platform.{Platform, AccountInfo, Sysvars}
use alpenglow_vote.Account.{Store}
use alpenglow_vote.Account.Local.{IsLocal, Agree, Unchanged, lift-IsLocal, bind-IsLocal}
use alpenglow_vote.Processor.{process_instruction}
use alpenglow_vote.Processor.Safety.{ok_injective}
use alpenglow_vote.Processor.Footprint.{footprint}
use alpenglow_vote.Processor.Locality.{process_instruction-IsLocal}

-- One call of the program, with the sysvars at its time.
pub record Call : Type 0 where
  pub sysvars : Sysvars
  pub accounts : List AccountInfo
  pub input : Bytes

-- `zs` has the items of `xs` and of `ys`, each in their order.
pub data Interleaved {A : Type 0} : List A → List A → List A → Type 0 where
  done : Interleaved [] [] []
  left : (x : A) {xs ys zs : List A} → Interleaved xs ys zs → Interleaved (x ∷ xs) ys (x ∷ zs)
  right : (y : A) {xs ys zs : List A} → Interleaved xs ys zs → Interleaved xs (y ∷ ys) (y ∷ zs)

-- The items of two further lists in the same order: for each item of `xs` the next one of the first
-- list, for each item of `ys` the next one of the second.
unfoldable pub woven :
    {A B : Type 0} {xs ys zs : List A} → Interleaved xs ys zs → List B → List B → List B
woven done rs ss = []
woven (left x rest) [] ss = []
woven (left x rest) (r ∷ rs) ss = r ∷ woven rest rs ss
woven (right y rest) rs [] = []
woven (right y rest) rs (s ∷ ss) = s ∷ woven rest rs ss

module _ (P : Platform) (program_id : Pubkey) where
  -- The runtime keeps what a call leaves if it succeeds, and takes it back if not.
  abbrev pub attempt : Call → Exec Store (Outcome (Unit {0}))
  attempt c st =
      let (r, u) = process_instruction P c.sysvars program_id c.accounts c.input st in
      (ok r, after r st u)

  -- the result of a call on a store
  abbrev pub result : Call → Store → Outcome (Unit {0})
  result c st = (process_instruction P c.sysvars program_id c.accounts c.input st).0

  -- what a list of calls leaves
  unfoldable pub settle : List Call → Store → Store
  settle [] st = st
  settle (c ∷ cs) st = settle cs (attempt c st).1

  -- the result of each call of a list
  unfoldable pub outcomes : List Call → Store → List (Outcome (Unit {0}))
  outcomes [] st = []
  outcomes (c ∷ cs) st = result c st ∷ outcomes cs (attempt c st).1

  abbrev batch : List Call → Exec Store (List (Outcome (Unit {0})))
  batch cs st = (ok (outcomes cs st), settle cs st)

  -- What the calls work on is in `C`.
  abbrev pub AreIn : (ℕ → Type 0) → List Call → Type 0
  AreIn C cs = All (λ c. All C (footprint c.accounts c.input)) cs

  module _ (C : ℕ → Type 0) where
    after-Agree :
        (r : Outcome (Unit {0})) (st st' u u' : Store)
        → Agree C st st'
        → Agree C u u'
        → Agree C (after r st u) (after r st' u')
    after-Agree (ok _) st st' u u' h k = k
    after-Agree (err e) st st' u u' h k = h
    after-Agree panic st st' u u' h k = h

    after-Unchanged :
        (r : Outcome (Unit {0})) (st u : Store) → Unchanged C st u → Unchanged C st (after r st u)
    after-Unchanged (ok _) st u h j out = h j out
    after-Unchanged (err e) st u h j out = refl
    after-Unchanged panic st u h j out = refl

    pub attempt-IsLocal : (c : Call) → All C (footprint c.accounts c.input) → IsLocal C (attempt c)
    attempt-IsLocal c given =
        let run = process_instruction P c.sysvars program_id c.accounts c.input in
        let h : IsLocal C run =
          process_instruction-IsLocal P C c.sysvars program_id c.accounts c.input given in
        record {
          same_result = λ st st' k. ap ok (h.same_result st st' k);
          same_cells = λ st st' k.
              subst (λ r. Agree C (after (run st).0 st (run st).1) (after r st' (run st').1))
                (h.same_result st st' k)
                (after-Agree (run st).0 st st' (run st).1 (run st').1 k (h.same_cells st st' k));
          rest = λ st. after-Unchanged (run st).0 st (run st).1 (h.rest st);
        }

    batch-IsLocal : (cs : List Call) → AreIn C cs → IsLocal C (batch cs)
    unfolding settle outcomes
    batch-IsLocal [] given = lift-IsLocal C (ok [])
    batch-IsLocal (c ∷ cs) (now, later) =
        bind-IsLocal C (attempt c) (λ r. batch cs >>= λ rs. lift (ok (r ∷ rs)))
          (attempt-IsLocal c now)
          λ r.
            bind-IsLocal C (batch cs) (λ rs. lift (ok (r ∷ rs))) (batch-IsLocal cs later)
              λ rs. lift-IsLocal C (ok (r ∷ rs))

-- The accounts fall into two parts: those with `side j ≡ true` and the others.
module _ (side : ℕ → Bool) where
  abbrev pub On : Bool → ℕ → Type 0
  On b j = side j ≡ b

  -- Two steps, each on a part of its own, in either order.
  module _ {A B : Type 0} (m : Exec Store A) (n : Exec Store B) (hm : IsLocal (On true) m)
      (hn : IsLocal (On false) n) (st : Store) where
    Agree-left : Agree (On true) (n st).1 st
    Agree-left j c = hn.rest st j (λ d. cc)

    Agree-right : Agree (On false) (m st).1 st
    Agree-right j d = hm.rest st j (λ c. cc)

    pub commutes : (n (m st).1).1 ≡ (m (n st).1).1
    commutes = fun_ext λ j. elim (Bool-cases (side j)) [
      | inl c ↦ hn.rest (m st).1 j (λ d. cc) ∙ sym (hm.same_cells (n st).1 st Agree-left j c)
      | inr d ↦ hn.same_cells (m st).1 st Agree-right j d ∙ sym (hm.rest (n st).1 j (λ c. cc))
    ]

module _ (P : Platform) (program_id : Pubkey) (side : ℕ → Bool) where
  batch_alone :
      (b : Bool) (cs : List Call) (st u : Store)
      → AreIn P program_id (On side b) cs
      → Agree (On side b) st u
      → outcomes P program_id cs st ≡ outcomes P program_id cs u
  batch_alone b cs st u given h =
      ok_injective _ _ ((batch-IsLocal P program_id (On side b) cs given).same_result st u h)

  -- the calls that follow a call of the other part
  settle_later :
      (c : Call) (xs ys : List Call) (st : Store)
      → AreIn P program_id (On side true) xs
      → All (On side false) (footprint c.accounts c.input)
      → settle P program_id ys (settle P program_id xs (attempt P program_id c st).1)
        ≡ settle P program_id (c ∷ ys) (settle P program_id xs st)
  unfolding settle
  settle_later c xs ys st hx now = ap (settle P program_id ys) (
      sym (
        commutes side (batch P program_id xs) (attempt P program_id c)
          (batch-IsLocal P program_id (On side true) xs hx)
          (attempt-IsLocal P program_id (On side false) c now) st))

  -- Let the calls `xs` work on accounts of one part only, and `ys` of the other. In whatever order the
  -- two lists are interleaved, the accounts end as after `xs` and then `ys`, and each call has the
  -- result that it has in its own list alone: the results are those of the two lists, interleaved as
  -- the calls are.
  pub interleaved_alike :
      {xs ys zs : List Call} (order : Interleaved xs ys zs)
      → AreIn P program_id (On side true) xs
      → AreIn P program_id (On side false) ys
      → (st : Store)
      → (settle P program_id zs st ≡ settle P program_id ys (settle P program_id xs st))
        × (outcomes P program_id zs st
            ≡ woven order (outcomes P program_id xs st) (outcomes P program_id ys st))
  unfolding settle outcomes woven
  interleaved_alike done hx hy st = (refl, refl)
  interleaved_alike (left c {xs = xs} {ys = ys} rest) (now, hx) hy st =
      let u = (attempt P program_id c st).1 in
      let (stores, results) = interleaved_alike rest hx hy u in
      let here = attempt-IsLocal P program_id (On side true) c now in
      let alone = batch_alone false ys u st hy (λ j d. here.rest st j (λ e. cc)) in
      (
        stores,
        ap (λ rs. result P program_id c st ∷ rs)
            (results ∙ ap (woven rest (outcomes P program_id xs u)) alone),
      )
  interleaved_alike (right c {xs = xs} {ys = ys} rest) hx (now, hy) st =
      let u = (attempt P program_id c st).1 in
      let (stores, results) = interleaved_alike rest hx hy u in
      let here = attempt-IsLocal P program_id (On side false) c now in
      let alone = batch_alone true xs u st hx (λ j d. here.rest st j (λ e. cc)) in
      (
        stores ∙ settle_later c xs ys st hx now,
        ap (λ rs. result P program_id c st ∷ rs)
            (results ∙ ap (λ rs. woven rest rs (outcomes P program_id ys u)) alone),
      )
