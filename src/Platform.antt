-- ===== src/Platform.antt =====
-- What the program takes from the Solana SDK, bytemuck and spl-pod: types it reads, and operations
-- as parameters with their documented behaviour as laws.
use alpenglow_vote.Base.{
  ℕ, ◌<◌, ◌^◌, ◌≡◌, Bool, true, false, Option, none, some, List, [], ◌∷◌, ◌++◌, length,
}
use alpenglow_vote.Word.{IsU8, IsU64}
use alpenglow_vote.Error.{ProgramError}
use alpenglow_vote.Exec.{Outcome, ok, err}
use alpenglow_vote.Pod.{Bytes, Pod}
use alpenglow_vote.Records.{Pubkey, Hash, Slot, Epoch}
use alpenglow_vote.InstructionData.{
  InitializeAccountInstructionData, AuthorizeInstructionData, AuthorizeWithSeedInstructionData,
  AuthorizeCheckedWithSeedInstructionData, NotarizationVoteInstructionData, IsInitializeData,
  IsAuthorizeData, IsAuthorizeWithSeedData, IsAuthorizeCheckedWithSeedData, IsNotarizationData,
}
use alpenglow_vote.State.{VoteState}
use alpenglow_vote.State.Ranges.{IsVoteState}

-- The fields of the sysvars that the program reads.
pub record Clock : Type 0 where
  pub slot : Slot
  pub epoch : Epoch
  pub leader_schedule_epoch : Epoch

pub record EpochSchedule : Type 0 where
  pub slots_per_epoch : ℕ
  pub first_normal_slot : Slot

-- `minimum_balance(data_len)` and `is_exempt(balance, data_len)`
pub record Rent : Type 0 where
  pub minimum_balance : ℕ → ℕ
  pub is_exempt : ℕ → ℕ → Bool

-- `PodSlotHashes::get`
pub record SlotHashes : Type 0 where
  pub get : Slot → Outcome (Option Hash)

-- One `get` or `fetch` for each sysvar.
pub record Sysvars : Type 0 where
  pub rent : Outcome Rent
  pub clock : Outcome Clock
  pub epoch_schedule : Outcome EpochSchedule
  pub slot_hashes : Outcome SlotHashes

-- An account as an instruction sees it. `cell` is the place of its lamports and data: the same
-- account passed twice is two of these with one cell.
pub record AccountInfo : Type 0 where
  pub key : Pubkey
  pub owner : Pubkey
  pub is_signer : Bool
  pub cell : ℕ

pub record Platform : Type 0 where
  -- the layouts
  pub bls_pubkey_bound : ℕ
  pub pod_u8 : Pod ℕ IsU8
  pub pod_u64 : Pod ℕ IsU64
  pub pod_vote_state : Pod VoteState (IsVoteState bls_pubkey_bound)
  pub pod_initialize : Pod InitializeAccountInstructionData (IsInitializeData bls_pubkey_bound)
  pub pod_authorize : Pod AuthorizeInstructionData IsAuthorizeData
  pub pod_with_seed : Pod AuthorizeWithSeedInstructionData IsAuthorizeWithSeedData
  pub pod_checked_with_seed :
      Pod AuthorizeCheckedWithSeedInstructionData IsAuthorizeCheckedWithSeedData
  pub pod_notarization : Pod NotarizationVoteInstructionData IsNotarizationData
  -- what spl-pod's `pod_from_bytes` and `pod_from_bytes_mut` return on a wrong length
  pub pod_cast_error : ProgramError
  -- `PodU32::from(len as u32)` as bytes, and `PodSlice::unpack(bytes)?.data()`
  pub seed_length_bytes : ℕ → Bytes
  pub unpack_seed : Bytes → Outcome Bytes
  pub unpack_law :
      (seed : Bytes)
      → length seed < 2 ^ 32
      → unpack_seed (seed_length_bytes (length seed) ++ seed) ≡ ok seed
  -- `std::str::from_utf8(seed).is_ok()`
  pub is_utf8 : Bytes → Bool
  -- `Pubkey::create_with_seed(base, seed, owner)`
  pub create_with_seed : Pubkey → Bytes → Pubkey → Outcome Pubkey
  -- `next_account_info(iter)`, with what the iterator has left
  pub next_account_info : List AccountInfo → Outcome (AccountInfo × List AccountInfo)
  pub next_law :
      (a : AccountInfo) (rest : List AccountInfo) → next_account_info (a ∷ rest) ≡ ok (a, rest)
  pub no_account : ProgramError
  pub no_account_law : next_account_info [] ≡ err no_account
  -- `AccountInfo::signer_key`
  pub signer_key : AccountInfo → Option Pubkey
  pub signer_law : (a : AccountInfo) → a.is_signer ≡ true → signer_key a ≡ some a.key
  pub not_signer_law : (a : AccountInfo) → a.is_signer ≡ false → signer_key a ≡ none
  -- the address of the program, `crate::id()`
  pub id : Pubkey
