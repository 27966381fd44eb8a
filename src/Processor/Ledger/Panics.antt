-- ===== src/Processor/Ledger/Panics.antt =====
-- No call of program/src/processor.rs panics, however many come before it.
use alpenglow_vote.Base.{arith, ℕ, ◌≡◌, ◌≢◌, ◌∷◌, List, [], All}
use native.Mathlib.Decide.{ℕ_discrete}
use alpenglow_vote.Exec.{panic}
use alpenglow_vote.Records.{Pubkey}
use alpenglow_vote.Platform.{Platform, AccountInfo, Sysvars}
use alpenglow_vote.Pod.{Bytes}
use alpenglow_vote.Account.{Store}
use alpenglow_vote.Spec.Ranges.{IsInput}
use alpenglow_vote.Processor.{process_instruction}
use alpenglow_vote.Processor.Panics.{IsCalm, process_instruction-ne-panic}
use alpenglow_vote.Processor.Ledger.{IsLedger, IsFair, scene}
use alpenglow_vote.Processor.Ledger.Guarantees.{elapse-IsLedger}
use alpenglow_vote.Processor.Chain.{Event, call, others, elapse, results}
use alpenglow_vote.Processor.Schedule.{attempt}
use alpenglow_vote.Instruction.Decode.{decode_instruction_type-ne-panic}

module _ (P : Platform) (program_id : Pubkey) (C : ℕ → Type 0) where
  -- The runtime does not panic in a call.
  abbrev pub IsCalmEvent : Event → Type 0
  IsCalmEvent (call c) = IsCalm P c.sysvars
  IsCalmEvent (others f) = Unit {0}

  none-ne-panic :
      (sysvars : Sysvars) (input : Bytes) (st : Store)
      → (process_instruction P sysvars program_id [] input st).0 ≢ panic
  unfolding process_instruction
  none-ne-panic sysvars input st =
      ground (arith, P.no_account_law, decode_instruction_type-ne-panic input)

  foreign-ne-panic :
      (sysvars : Sysvars) (a : AccountInfo) (iter : List AccountInfo) (input : Bytes) (st : Store)
      → a.owner ≢ program_id
      → (process_instruction P sysvars program_id (a ∷ iter) input st).0 ≢ panic
  unfolding process_instruction
  foreign-ne-panic sysvars a iter input st ne =
      ground (arith, P.next_law a iter, decode_instruction_type-ne-panic input)

  call-ne-panic :
      (sysvars : Sysvars) (accounts : List AccountInfo) (input : Bytes) (st : Store)
      → IsLedger P program_id C st
      → IsCalm P sysvars
      → IsInput sysvars accounts input
      → All (λ a. a.owner ≡ program_id → C a.cell) accounts
      → (process_instruction P sysvars program_id accounts input st).0 ≢ panic
  call-ne-panic sysvars [] input st l calm is_input owned = none-ne-panic sysvars input st
  call-ne-panic sysvars (a ∷ iter) input st l calm is_input (owned, _) =
      elim (ℕ_discrete a.owner program_id) [
        | yes own ↦
            process_instruction-ne-panic
              (scene P program_id C sysvars a iter input st l is_input (owned own)) program_id calm
        | no ne ↦ foreign-ne-panic sysvars a iter input st ne
      ]

  -- Let nothing be borrowed and every account that the program owns hold a vote state, and no call of
  -- the runtime's panic. However many calls follow, with any accounts and any input in range, each
  -- rolled back where it fails, and whatever the runtime lets other programs do in between: none of
  -- the calls panics.
  pub results-ne-panic :
      (es : List Event) (st : Store)
      → IsLedger P program_id C st
      → All (IsFair P program_id C) es
      → All IsCalmEvent es
      → All (λ r. r ≢ panic) (results P program_id es st)
  unfolding results elapse
  results-ne-panic [] st l _ _ = tt
  results-ne-panic (call c ∷ es) st l (proper, later) (calm, calms) = (
    call-ne-panic c.sysvars c.accounts c.input st l calm proper.is_input proper.owned,
    results-ne-panic es (attempt P program_id c st).1
        (elapse-IsLedger P program_id C (call c ∷ []) st l (proper, tt)) later calms,
  )
  results-ne-panic (others f ∷ es) st l (spares, later) (_, calms) =
      results-ne-panic es (f st) (elapse-IsLedger P program_id C (others f ∷ []) st l (spares, tt))
        later calms
