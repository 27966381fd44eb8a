-- ===== src/Error/Codes.antt =====
-- `VoteError` of program/src/error.rs and its numbers: `FromPrimitive` and `DecodeError`.
use Prim.Native.String.{String}
use alpenglow_vote.Base.{
  ℕ, ◌+◌, ◌≡◌, ◌↔◌, refl, List, [], ◌∷◌, Option, none, some, ◌==◌, if◌then◌else◌, arith,
}
use alpenglow_vote.Error.{
  VoteError, code, active_vote_account_close, commission_update_too_late, invalid_instruction,
  invalid_authorize_type, missing_epoch_schedule_sysvar, missing_slot_hashes_sysvar,
  replay_bank_hash_mismatch, skip_slot_present, skip_slot_exceeds_current_slot,
  slot_hashes_missing_key, version_mismatch,
}

-- `DecodeError::type_of`
abbrev pub type_of : String
type_of = "Vote Error"

abbrev variants : List VoteError
variants =
    active_vote_account_close ∷ commission_update_too_late ∷ invalid_instruction
    ∷ invalid_authorize_type ∷ missing_epoch_schedule_sysvar ∷ missing_slot_hashes_sysvar
    ∷ replay_bank_hash_mismatch ∷ skip_slot_present ∷ skip_slot_exceeds_current_slot
    ∷ slot_hashes_missing_key ∷ version_mismatch ∷ []

abbrev find_code : ℕ → ℕ → List VoteError → Option VoteError
find_code n position [] = none
find_code n position (e ∷ rest) = if n == position then some e else find_code n (position + 1) rest

-- `VoteError::from_u32`: the variants in their order, looked up by position.
unfoldable pub from_u32 : ℕ → Option VoteError
from_u32 n = find_code n 0 variants

code_of_from_u32 : (n : ℕ) (e : VoteError) → from_u32 n ≡ some e → code e ≡ n
unfolding from_u32
code_of_from_u32 n e h = ground arith

from_u32-code : (e : VoteError) → from_u32 (code e) ≡ some e
unfolding from_u32
from_u32-code active_vote_account_close = refl
from_u32-code _ = refl

-- The code of a custom program error is decoded as exactly the error that has it.
pub from_u32_iff : (n : ℕ) (e : VoteError) → (from_u32 n ≡ some e) ↔ (code e ≡ n)
from_u32_iff n e = (code_of_from_u32 n e, λ h. rw (← h) (from_u32-code e))
