-- ===== src/Instruction.antt =====
-- program/src/instruction.rs: the instruction numbers, and the encoding and decoding of
-- instruction data. The builders are in Builders.
pub mod Decode
pub mod Numbers
pub mod RoundTrip
use alpenglow_vote.Base.{
  ℕ, ◌+◌, ◌-◌, ◌%◌, ◌^◌, Bool, ◌&&◌, Option, none, some, List, [], ◌∷◌, ◌++◌, length, take, drop,
  ltb, leb, ◌==◌, ◌/=◌, if◌then◌else◌,
}
use alpenglow_vote.Word.{saturating_add, checked_add}
use alpenglow_vote.Error.{
  invalid_instruction_data, arithmetic_overflow, from_vote_error, invalid_instruction,
}
use alpenglow_vote.Exec.{Outcome, ok, err, panic}
use alpenglow_vote.Pod.{Bytes, Pod}
use alpenglow_vote.Records.{Pubkey}
use alpenglow_vote.Platform.{Platform}

pub data VoteInstruction : Type 0 where
  initialize_account : VoteInstruction
  authorize : VoteInstruction
  authorize_checked : VoteInstruction
  authorize_with_seed : VoteInstruction
  authorize_checked_with_seed : VoteInstruction
  withdraw : VoteInstruction
  update_validator_identity : VoteInstruction
  update_commission : VoteInstruction
  notarize : VoteInstruction
  finalize : VoteInstruction
  skip : VoteInstruction
  notarize_fallback : VoteInstruction
  skip_fallback : VoteInstruction

-- `u8::from`
unfoldable pub to_u8 : VoteInstruction → ℕ
to_u8 initialize_account = 0
to_u8 authorize = 1
to_u8 authorize_checked = 2
to_u8 authorize_with_seed = 3
to_u8 authorize_checked_with_seed = 4
to_u8 withdraw = 5
to_u8 update_validator_identity = 6
to_u8 update_commission = 7
to_u8 notarize = 8
to_u8 finalize = 9
to_u8 skip = 10
to_u8 notarize_fallback = 11
to_u8 skip_fallback = 12

-- `VoteInstruction::try_from`: the variants in their order, looked up by position.
abbrev variants : List VoteInstruction
variants =
    initialize_account ∷ authorize ∷ authorize_checked ∷ authorize_with_seed
    ∷ authorize_checked_with_seed ∷ withdraw ∷ update_validator_identity ∷ update_commission
    ∷ notarize ∷ finalize ∷ skip ∷ notarize_fallback ∷ skip_fallback ∷ []

abbrev find_from : ℕ → ℕ → List VoteInstruction → Option VoteInstruction
find_from n position [] = none
find_from n position (i ∷ rest) = if n == position then some i else find_from n (position + 1) rest

unfoldable pub try_from : ℕ → Option VoteInstruction
try_from n = find_from n 0 variants

-- `AccountMeta` and `Instruction` of the SDK.
pub record AccountMeta : Type 0 where
  pub pubkey : Pubkey
  pub is_signer : Bool
  pub is_writable : Bool

pub record Instruction : Type 0 where
  pub program_id : Pubkey
  pub accounts : List AccountMeta
  pub payload : Bytes

abbrev from_option : Option VoteInstruction → Outcome VoteInstruction
from_option none = err (from_vote_error invalid_instruction)
from_option (some i) = ok i

unfoldable pub decode_instruction_type : Bytes → Outcome VoteInstruction
decode_instruction_type [] = err invalid_instruction_data
decode_instruction_type (b ∷ _) = from_option (try_from b)

-- `&input[lo..hi]`, which panics out of range.
abbrev slice : ℕ → ℕ → Bytes → Outcome Bytes
slice lo hi b = if leb lo hi && leb hi (length b) then ok (take (hi - lo) (drop lo b)) else panic

infixl 5 ◌>>=◌
abbrev pub ◌>>=◌ : {A B : Type 0} → Outcome A → (A → Outcome B) → Outcome B
ok a >>= f = f a
err e >>= f = err e
panic >>= f = panic

module _ (P : Platform) where
  open P use {pod_cast_error, seed_length_bytes, unpack_seed, id}

  -- `Some(seed)` as bytes; `seed.len() as u32` keeps the low 32 bits.
  abbrev seed_bytes : Option Bytes → Bytes
  seed_bytes none = []
  seed_bytes (some seed) = seed_length_bytes (length seed % 2 ^ 32) ++ seed

  module _ {T : Type 0} {V : T → Type 0} (pod : Pod T V) where
    unfoldable pub encode_instruction_with_seed :
        List AccountMeta → VoteInstruction → T → Option Bytes → Instruction
    encode_instruction_with_seed accounts instruction instruction_data seed = record {
      program_id = id;
      accounts = accounts;
      payload = to_u8 instruction ∷ (pod.bytes_of instruction_data ++ seed_bytes seed);
    }

    unfoldable pub encode_instruction : List AccountMeta → VoteInstruction → T → Instruction
    unfolding encode_instruction_with_seed
    encode_instruction accounts instruction instruction_data =
        encode_instruction_with_seed accounts instruction instruction_data none

    -- spl-pod's `pod_from_bytes`
    unfoldable pub pod_from_bytes : Bytes → Outcome T
    pod_from_bytes b = if length b == pod.size then ok (pod.from_bytes b) else err pod_cast_error

    unfoldable pub decode_instruction_data : Bytes → Outcome T
    unfolding pod_from_bytes saturating_add
    decode_instruction_data input_with_type =
        if length input_with_type /= saturating_add pod.size 1
        then err invalid_instruction_data
        else slice 1 (length input_with_type) input_with_type >>= pod_from_bytes

    abbrev decode_parts : Bytes → ℕ → Outcome (T × Bytes)
    decode_parts input data_offset = do
      fixed ← slice 1 data_offset input
      instruction_data ← pod_from_bytes fixed
      tail ← slice data_offset (length input) input
      seed ← unpack_seed tail
      ok (instruction_data, seed)

    abbrev decode_at : Bytes → Option ℕ → Outcome (T × Bytes)
    decode_at input none = err arithmetic_overflow
    decode_at input (some data_offset) = decode_parts input data_offset

    -- with the seed's bytes, `seed.data()`
    unfoldable pub decode_instruction_data_with_seed : Bytes → Outcome (T × Bytes)
    unfolding pod_from_bytes saturating_add checked_add
    decode_instruction_data_with_seed input_with_type =
        if ltb (length input_with_type) (saturating_add pod.size 1)
        then err invalid_instruction_data
        else decode_at input_with_type (checked_add pod.size 1)
