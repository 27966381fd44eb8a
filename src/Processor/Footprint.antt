-- ===== src/Processor/Footprint.antt =====
-- The accounts that an instruction of program/src/processor.rs works on: its vote account, and the
-- recipient of a withdrawal.
use alpenglow_vote.Base.{ℕ, List, [], ◌∷◌}
use alpenglow_vote.Exec.{Outcome, ok}
use alpenglow_vote.Pod.{Bytes}
use alpenglow_vote.Platform.{AccountInfo}
use alpenglow_vote.Instruction.{VoteInstruction, decode_instruction_type}

abbrev pub paid_by : VoteInstruction → List AccountInfo → List ℕ
paid_by VoteInstruction.withdraw (recipient ∷ iter) = recipient.cell ∷ []
paid_by _ _ = []

abbrev pub footprint_of : Outcome VoteInstruction → List AccountInfo → List ℕ
footprint_of (ok instruction) (vote_account ∷ iter) = vote_account.cell ∷ paid_by instruction iter
footprint_of _ _ = []

unfoldable pub footprint : List AccountInfo → Bytes → List ℕ
footprint accounts input = footprint_of (decode_instruction_type input) accounts
