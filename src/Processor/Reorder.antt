-- ===== src/Processor/Reorder.antt =====
-- Lists of calls of program/src/processor.rs of which neighbours that work on different accounts have
-- changed places: as an abstract view, blocks of calls that forget this order.
use alpenglow_vote.Base.{
  ℕ, ◌≡◌, ◌≢◌, refl, sym, ap, ◌∙◌, List, [], ◌∷◌, All, Bool, true, false, ◌==◌, if◌then◌else◌,
  arith,
}
use mathlib.Core.List.Permᴰ
use mathlib.Core.List.{Permᴰ}
use mathlib.Core.Path.{subst, fun_ext}
use mathlib.Core.Quot
use mathlib.Core.Quot.{Quot, Quot-set}
use alpenglow_vote.Exec.{Outcome}
use alpenglow_vote.Records.{Pubkey}
use alpenglow_vote.Platform.{Platform}
use alpenglow_vote.Account.{Store}
use alpenglow_vote.Processor.Footprint.{footprint}
use alpenglow_vote.Account.Local.{IsLocal}
use alpenglow_vote.Processor.Safety.{ok_injective}
use alpenglow_vote.Processor.Schedule.{Call, attempt, result, settle, On, commutes, attempt-IsLocal}

-- The calls work on no account in common; they may share signers.
abbrev pub AreIndependent : Call → Call → Type 0
AreIndependent c d =
    All (λ j. All (λ i. i ≢ j) (footprint c.accounts c.input)) (footprint d.accounts d.input)

-- Neighbours that are independent change places, any number of times.
pub data Reordered : List Call → List Call → Type 0 where
  same : (cs : List Call) → Reordered cs cs
  swap : (c d : Call) (cs : List Call) → AreIndependent c d → Reordered (c ∷ d ∷ cs) (d ∷ c ∷ cs)
  keep : (c : Call) {cs ds : List Call} → Reordered cs ds → Reordered (c ∷ cs) (c ∷ ds)
  both : {cs ds es : List Call} → Reordered cs ds → Reordered ds es → Reordered cs es

Store-set : IsSet (Store → Store)
Store-set = hlevel

elem : ℕ → List ℕ → Bool
elem j [] = false
elem j (x ∷ xs) = if x == j then true else elem j xs

All-elem :
    (zs xs : List ℕ)
    → ((j : ℕ) → elem j xs ≡ true → elem j zs ≡ true)
    → All (λ j. elem j zs ≡ true) xs
unfolding elem
All-elem zs [] h = tt
All-elem zs (x ∷ xs) h = (h x (ground arith), All-elem zs xs (λ j e. h j (ground arith)))

elem_none : (j : ℕ) (zs : List ℕ) → All (λ i. i ≢ j) zs → elem j zs ≡ false
unfolding elem
elem_none j [] h = refl
elem_none j (z ∷ zs) h = ground (arith, elem_none j zs)

All-elem_none :
    (zs xs : List ℕ) → All (λ j. All (λ i. i ≢ j) zs) xs → All (λ j. elem j zs ≡ false) xs
All-elem_none zs [] h = tt
All-elem_none zs (x ∷ xs) (now, later) = (elem_none x zs now, All-elem_none zs xs later)

module _ (P : Platform) (program_id : Pubkey) where
  -- each call of a list with its result
  pub reports : List Call → Store → List (Call × Outcome (Unit {0}))
  reports [] st = []
  reports (c ∷ cs) st = (c, result P program_id c st) ∷ reports cs (attempt P program_id c st).1

  module _ (c d : Call) (apart : AreIndependent c d) (st : Store) where
    own : List ℕ
    own = footprint c.accounts c.input

    abbrev side : ℕ → Bool
    side j = elem j own

    first-IsLocal : IsLocal (On side true) (attempt P program_id c)
    unfolding own
    first-IsLocal = attempt-IsLocal P program_id (On side true) c (All-elem own own (λ j e. e))

    second-IsLocal : IsLocal (On side false) (attempt P program_id d)
    unfolding own
    second-IsLocal =
        attempt-IsLocal P program_id (On side false) d
          (All-elem_none own (footprint d.accounts d.input) apart)

    -- In either order they leave the same store,
    same_store :
        (attempt P program_id d (attempt P program_id c st).1).1
        ≡ (attempt P program_id c (attempt P program_id d st).1).1
    same_store =
        commutes side (attempt P program_id c) (attempt P program_id d) first-IsLocal second-IsLocal
          st

    -- and each has the same result.
    same_first : result P program_id c st ≡ result P program_id c (attempt P program_id d st).1
    same_first = ok_injective _ _ (
        first-IsLocal.same_result st (attempt P program_id d st).1
          (λ j e. sym (second-IsLocal.rest st j (λ n. cc))))

    same_second : result P program_id d st ≡ result P program_id d (attempt P program_id c st).1
    same_second = ok_injective _ _ (
        second-IsLocal.same_result st (attempt P program_id c st).1
          (λ j e. sym (first-IsLocal.rest st j (λ n. cc))))

  -- Let neighbours that work on different accounts change places in a list of calls, any number of
  -- times. The calls then leave the same store, and each has the same result.
  pub settle-Reordered :
      {cs ds : List Call}
      → Reordered cs ds
      → (st : Store)
      → (settle P program_id cs st ≡ settle P program_id ds st)
        × Permᴰ (reports cs st) (reports ds st)
  unfolding settle reports
  settle-Reordered (same cs) st = (refl, Permᴰ.refl (reports cs st))
  settle-Reordered (swap c d cs apart) st =
      let stores = same_store c d apart st in
      (
        ap (settle P program_id cs) stores,
        subst
            (λ u.
              Permᴰ
                ((c, result P program_id c st)
                  ∷ (d, result P program_id d (attempt P program_id c st).1)
                  ∷ reports cs (attempt P program_id d (attempt P program_id c st).1).1)
                ((d, result P program_id d st)
                  ∷ (c, result P program_id c (attempt P program_id d st).1)
                  ∷ reports cs u))
            stores
            (Permᴰ.swap (ap (λ r. (c, r)) (same_first c d apart st))
              (ap (λ r. (d, r)) (sym (same_second c d apart st)))),
      )
  settle-Reordered (keep c rest) st =
      let (stores, results) = settle-Reordered rest (attempt P program_id c st).1 in
      (stores, Permᴰ.cons refl results)
  settle-Reordered (both first second) st =
      let (stores, results) = settle-Reordered first st in
      let (stores', results') = settle-Reordered second st in
      (stores ∙ stores', Permᴰ.trans results results')

  -- A block of calls: the order of independent neighbours is forgotten.
  abbrev pub Block : Type 0
  Block = Quot Reordered

  pub add : Call → Block → Block
  add c = Quot.lift Quot-set (λ cs. Quot.mk (c ∷ cs)) (λ cs ds same. Quot.sound (keep c same))

  -- In a block, independent calls commute.
  add_comm : (c d : Call) → AreIndependent c d → (b : Block) → add c (add d b) ≡ add d (add c b)
  unfolding add
  add_comm c d apart = Quot.ind (λ b. Quot-set _ _) (λ cs. Quot.sound (swap c d cs apart))

  -- A block has an effect of its own.
  pub settle_block : Block → Store → Store
  settle_block =
      Quot.lift Store-set (settle P program_id)
        (λ cs ds same. fun_ext λ st. (settle-Reordered same st).0)

  settle_block-add :
      (c : Call) (b : Block) (st : Store)
      → settle_block (add c b) st ≡ settle_block b (attempt P program_id c st).1
  unfolding settle settle_block add
  settle_block-add c b st =
      Quot.ind {β = λ b. settle_block (add c b) st ≡ settle_block b (attempt P program_id c st).1}
        (λ b. hlevel) (λ cs. refl) b
