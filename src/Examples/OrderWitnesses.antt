-- ===== src/Examples/OrderWitnesses.antt =====
-- Theorems on which accounts an instruction of program/src/processor.rs reads and writes, and on the
-- order of instructions, at concrete accounts.
use alpenglow_vote.Base.{ℕ, ◌<◌, ◌≡◌, ◌∷◌, [], refl, arith, false, Bool, ltb}
use alpenglow_vote.Account.Local.{IsLocal}
use alpenglow_vote.Platform.{AccountInfo}
use alpenglow_vote.Processor.{process_instruction}
use alpenglow_vote.Base.{List}
use alpenglow_vote.Instruction.{decode_instruction_type, encode_instruction, try_from, to_u8}
use alpenglow_vote.Builders
use alpenglow_vote.Vote.Wire.{to_vote_instruction}
use alpenglow_vote.Processor.Footprint.{footprint}
use mathlib.Core.List.{Permᴰ}
use alpenglow_vote.Processor.Reorder.{AreIndependent, swap, reports, settle-Reordered}
use alpenglow_vote.Processor.Locality.{process_instruction-IsLocal}
use alpenglow_vote.Processor.Schedule.{
  Call, Interleaved, done, left, right, woven, settle, outcomes, interleaved_alike,
}
use alpenglow_vote.Examples.Sample.{sample}
use alpenglow_vote.Examples.Accounts.{vote_account, voter_account, sysvars, store}
use alpenglow_vote.Examples.ProcessorWitnesses.{finalization}

-- A finalization works on its vote account alone.
footprint-finalization :
    (a : AccountInfo) (iter : List AccountInfo) → footprint (a ∷ iter) finalization ≡ a.cell ∷ []
unfolding footprint decode_instruction_type to_vote_instruction Builders.finalize encode_instruction
    try_from to_u8
footprint-finalization a iter = refl

process_instruction-IsLocal_example :
    IsLocal
      (λ j. j < 1)
      (process_instruction sample sysvars 77 (vote_account ∷ voter_account ∷ []) finalization)
process_instruction-IsLocal_example =
    process_instruction-IsLocal sample (λ j. j < 1) sysvars 77 (vote_account ∷ voter_account ∷ [])
      finalization (rw (footprint-finalization vote_account (voter_account ∷ [])) (omega arith))

-- a vote on the sample account, and one of the same voter on an account that stands elsewhere
abbrev first_call : Call
first_call = record {
  sysvars = sysvars;
  accounts = vote_account ∷ voter_account ∷ [];
  input = finalization;
}

abbrev other_account : AccountInfo
other_account = record { key = 2; owner = 77; is_signer = false; cell = 10 }

abbrev other_call : Call
other_call = record {
  sysvars = sysvars;
  accounts = other_account ∷ voter_account ∷ [];
  input = finalization;
}

abbrev side : ℕ → Bool
side j = ltb j 10

-- the call on the other account comes first
abbrev other_first : Interleaved (first_call ∷ []) (other_call ∷ []) (other_call ∷ first_call ∷ [])
other_first = right other_call (left first_call done)

interleaved_alike_example :
    (settle sample 77 (other_call ∷ first_call ∷ []) store
      ≡ settle sample 77 (other_call ∷ []) (settle sample 77 (first_call ∷ []) store))
    × (outcomes sample 77 (other_call ∷ first_call ∷ []) store
        ≡ woven other_first
            (outcomes sample 77 (first_call ∷ []) store)
            (outcomes sample 77 (other_call ∷ []) store))
interleaved_alike_example =
    interleaved_alike sample 77 side other_first
      (rw (footprint-finalization vote_account (voter_account ∷ [])) (refl, tt), tt)
      (rw (footprint-finalization other_account (voter_account ∷ [])) (refl, tt), tt) store

independent_calls : AreIndependent other_call first_call
independent_calls =
    rw (footprint-finalization vote_account (voter_account ∷ []))
      (rw (footprint-finalization other_account (voter_account ∷ [])) (omega arith))

settle-Reordered_example :
    (settle sample 77 (other_call ∷ first_call ∷ []) store
      ≡ settle sample 77 (first_call ∷ other_call ∷ []) store)
    × Permᴰ
        (reports sample 77 (other_call ∷ first_call ∷ []) store)
        (reports sample 77 (first_call ∷ other_call ∷ []) store)
settle-Reordered_example =
    settle-Reordered sample 77 (swap other_call first_call [] independent_calls) store
