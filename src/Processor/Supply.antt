-- ===== src/Processor/Supply.antt =====
-- The lamports of all accounts over any number of instructions of program/src/processor.rs.
use alpenglow_vote.Base.{ℕ, ◌<◌, ◌≡◌, refl, sym, ap, ◌∙◌, All}
use alpenglow_vote.Records.{Pubkey}
use alpenglow_vote.Platform.{Platform}
use alpenglow_vote.Account.{Store}
use alpenglow_vote.Processor.Trace.{OnStep, Trace, begin, step, elsewhere, Every}
use alpenglow_vote.Processor.Transfers.{total, process_instruction-total}

module _ (n : ℕ) where
  -- The accounts of an instruction are among those from 0 to n - 1.
  abbrev pub AreWithin : OnStep
  AreWithin sysvars account iter = (account.cell < n) × All (λ a. a.cell < n) iter

  -- Others move lamports among the accounts from 0 to n - 1 only.
  abbrev pub IsBalanced : (Store → Store) → Type 0
  IsBalanced f = (st : Store) → total n (f st) ≡ total n st

  -- However many instructions succeed in turn, each on an account that holds a vote state, with input
  -- in range and nothing borrowed before it: if their accounts are among those from 0 to n - 1, and
  -- others move lamports among these only, then their lamports add up to what they did before.
  pub supply_kept :
      (P : Platform) (program_id : Pubkey) (C : ℕ → Type 0) {st u : Store}
      (past : Trace P program_id C st u)
      → Every P program_id C AreWithin IsBalanced past
      → total n u ≡ total n st
  supply_kept P program_id C begin _ = refl
  supply_kept P program_id C (step x past _ hst e left) (earlier, (own, within)) =
      ap (total n) (sym left)
      ∙ process_instruction-total x program_id n own within e
      ∙ ap (total n) hst
      ∙ supply_kept P program_id C past earlier
  supply_kept P program_id C (elsewhere {t = t} f past _ left) (earlier, balanced) =
      ap (total n) (sym left) ∙ balanced t ∙ supply_kept P program_id C past earlier
