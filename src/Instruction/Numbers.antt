-- ===== src/Instruction/Numbers.antt =====
-- The instruction numbers of program/src/instruction.rs.
use alpenglow_vote.Base.{ℕ, ◌≡◌, ◌↔◌, refl, some, ◌∷◌, arith}
use alpenglow_vote.Exec.{ok}
use alpenglow_vote.Pod.{Bytes}
use alpenglow_vote.Instruction.{
  VoteInstruction, initialize_account, to_u8, try_from, decode_instruction_type,
}

try_from-to_u8 : (i : VoteInstruction) → try_from (to_u8 i) ≡ some i
unfolding try_from to_u8
try_from-to_u8 initialize_account = refl
try_from-to_u8 _ = refl

to_u8_of_try_from : (n : ℕ) (i : VoteInstruction) → try_from n ≡ some i → to_u8 i ≡ n
unfolding try_from to_u8
to_u8_of_try_from n i e = ground arith

-- A number is read as an instruction exactly when it is the number of that instruction.
pub try_from_iff : (n : ℕ) (i : VoteInstruction) → (try_from n ≡ some i) ↔ (to_u8 i ≡ n)
try_from_iff n i = (to_u8_of_try_from n i, λ e. rw (← e) (try_from-to_u8 i))

-- An instruction is decoded exactly from the bytes that begin with its number.
pub decode_instruction_type_iff :
    (b : ℕ) (rest : Bytes) (i : VoteInstruction)
    → (decode_instruction_type (b ∷ rest) ≡ ok i) ↔ (to_u8 i ≡ b)
unfolding decode_instruction_type
decode_instruction_type_iff b rest i = ground (arith, to_u8_of_try_from b i, try_from-to_u8 i)
