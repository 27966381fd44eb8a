-- ===== src/InstructionData.antt =====
-- The data that instructions carry: the `repr(C)` structs of program/src/instruction.rs and
-- `NotarizationVoteInstructionData` of program/src/vote_processor.rs, and `AuthorityType`.
use alpenglow_vote.Base.{ℕ, ◌<◌, Option, none, some, ◌==◌, if◌then◌else◌}
use alpenglow_vote.Word.{IsU8, IsU64}
use alpenglow_vote.Records.{Pubkey, Hash, BlsPubkey, Slot, IsBytes32}

pub record InitializeAccountInstructionData : Type 0 where
  pub node_pubkey : Pubkey
  pub authorized_voter : Pubkey
  pub authorized_withdrawer : Pubkey
  pub commission : ℕ
  pub bls_pubkey : BlsPubkey

pub record AuthorizeInstructionData : Type 0 where
  pub new_authorized_pubkey : Pubkey
  pub authority_type : ℕ

pub record AuthorizeWithSeedInstructionData : Type 0 where
  pub authority_type : ℕ
  pub current_authority_derived_key_owner : Pubkey
  pub new_authority : Pubkey

pub record AuthorizeCheckedWithSeedInstructionData : Type 0 where
  pub authority_type : ℕ
  pub current_authority_derived_key_owner : Pubkey

pub record NotarizationVoteInstructionData : Type 0 where
  pub version : ℕ
  pub slot : Slot
  pub block_id : Hash
  pub replayed_slot : Slot
  pub replayed_bank_hash : Hash

-- The ranges of the fields. `n` bounds the BLS keys, whose length is the BLS library's.
pub record IsInitializeData (n : ℕ) (d : InitializeAccountInstructionData) : Type 0 where
  pub node_pubkey_bytes : IsBytes32 d.node_pubkey
  pub authorized_voter_bytes : IsBytes32 d.authorized_voter
  pub authorized_withdrawer_bytes : IsBytes32 d.authorized_withdrawer
  pub commission_u8 : IsU8 d.commission
  pub bls_pubkey_bytes : d.bls_pubkey < n

pub record IsAuthorizeData (d : AuthorizeInstructionData) : Type 0 where
  pub new_authorized_pubkey_bytes : IsBytes32 d.new_authorized_pubkey
  pub authority_type_u8 : IsU8 d.authority_type

pub record IsAuthorizeWithSeedData (d : AuthorizeWithSeedInstructionData) : Type 0 where
  pub authority_type_u8 : IsU8 d.authority_type
  pub owner_bytes : IsBytes32 d.current_authority_derived_key_owner
  pub new_authority_bytes : IsBytes32 d.new_authority

pub record IsAuthorizeCheckedWithSeedData (d : AuthorizeCheckedWithSeedInstructionData)
    : Type 0 where
  pub authority_type_u8 : IsU8 d.authority_type
  pub owner_bytes : IsBytes32 d.current_authority_derived_key_owner

pub record IsNotarizationData (d : NotarizationVoteInstructionData) : Type 0 where
  pub version_u8 : IsU8 d.version
  pub slot_u64 : IsU64 d.slot
  pub block_id_bytes : IsBytes32 d.block_id
  pub replayed_slot_u64 : IsU64 d.replayed_slot
  pub replayed_bank_hash_bytes : IsBytes32 d.replayed_bank_hash

pub data AuthorityType : Type 0 where
  voter : AuthorityType
  withdrawer : AuthorityType

-- `u8::from` and `AuthorityType::try_from`, which `repr(u8)` numbers by position.
unfoldable pub authority_type_to_u8 : AuthorityType → ℕ
authority_type_to_u8 voter = 0
authority_type_to_u8 withdrawer = 1

unfoldable pub authority_type_from_u8 : ℕ → Option AuthorityType
authority_type_from_u8 n = if n == 0 then some voter else if n == 1 then some withdrawer else none
