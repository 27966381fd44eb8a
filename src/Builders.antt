-- ===== src/Builders.antt =====
-- The instruction builders of program/src/instruction.rs.
use alpenglow_vote.Base.{ℕ, true, false, Option, none, some, List, [], ◌∷◌}
use alpenglow_vote.Word.{saturating_add}
use alpenglow_vote.Pod.{Bytes}
use alpenglow_vote.Records.{Pubkey}
use alpenglow_vote.InstructionData.{
  InitializeAccountInstructionData, AuthorityType, authority_type_to_u8,
}
use alpenglow_vote.Instruction.{
  VoteInstruction, to_u8, AccountMeta, Instruction, encode_instruction,
  encode_instruction_with_seed,
}
use alpenglow_vote.Platform.{Platform, Rent}
use alpenglow_vote.Vote.{
  NotarizationVote, FinalizationVote, SkipVote, NotarizationFallbackVote, SkipFallbackVote,
  notarization_slot, notarization_block_id, notarization_replayed_bank_hash, finalization_slot,
  skip_slot, notarization_fallback_slot, notarization_fallback_block_id,
  notarization_fallback_replayed_bank_hash, skip_fallback_slot,
}
use alpenglow_vote.VoteProcessor.{current_notarize_vote_version}

-- `AccountMeta::new(key, false)`, and `AccountMeta::new_readonly(key, true)`
abbrev pub writable : Pubkey → AccountMeta
writable key = record { pubkey = key; is_signer = false; is_writable = true }

abbrev pub readonly_signer : Pubkey → AccountMeta
readonly_signer key = record { pubkey = key; is_signer = true; is_writable = false }

abbrev pub vote_accounts : Pubkey → Pubkey → List AccountMeta
vote_accounts vote_pubkey authority = writable vote_pubkey ∷ readonly_signer authority ∷ []

module _ (P : Platform) where
  open P use {
    pod_u8, pod_u64, pod_vote_state, pod_initialize, pod_authorize, pod_with_seed,
    pod_checked_with_seed, pod_notarization, id,
  }

  unfoldable pub notarize : Pubkey → Pubkey → NotarizationVote → Instruction
  notarize vote_pubkey vote_authority vote =
      encode_instruction P pod_notarization (vote_accounts vote_pubkey vote_authority)
        VoteInstruction.notarize
        (record {
          version = current_notarize_vote_version;
          slot = notarization_slot vote;
          block_id = notarization_block_id vote;
          replayed_slot = 0;
          replayed_bank_hash = notarization_replayed_bank_hash vote;
        })

  unfoldable pub finalize : Pubkey → Pubkey → FinalizationVote → Instruction
  finalize vote_pubkey vote_authority vote =
      encode_instruction P pod_u64 (vote_accounts vote_pubkey vote_authority)
        VoteInstruction.finalize (finalization_slot vote)

  unfoldable pub skip : Pubkey → Pubkey → SkipVote → Instruction
  skip vote_pubkey vote_authority vote =
      encode_instruction P pod_u64 (vote_accounts vote_pubkey vote_authority) VoteInstruction.skip
        (skip_slot vote)

  unfoldable pub notarize_fallback : Pubkey → Pubkey → NotarizationFallbackVote → Instruction
  notarize_fallback vote_pubkey vote_authority vote =
      encode_instruction P pod_notarization (vote_accounts vote_pubkey vote_authority)
        VoteInstruction.notarize_fallback
        (record {
          version = current_notarize_vote_version;
          slot = notarization_fallback_slot vote;
          block_id = notarization_fallback_block_id vote;
          replayed_slot = 0;
          replayed_bank_hash = notarization_fallback_replayed_bank_hash vote;
        })

  unfoldable pub skip_fallback : Pubkey → Pubkey → SkipFallbackVote → Instruction
  skip_fallback vote_pubkey vote_authority vote =
      encode_instruction P pod_u64 (vote_accounts vote_pubkey vote_authority)
        VoteInstruction.skip_fallback (skip_fallback_slot vote)

  unfoldable pub initialize_account : Pubkey → InitializeAccountInstructionData → Instruction
  initialize_account vote_pubkey instruction_data =
      encode_instruction P pod_initialize (vote_accounts vote_pubkey instruction_data.node_pubkey)
        VoteInstruction.initialize_account instruction_data

  -- `create_account` is `system_instruction::create_account`.
  module _ (create_account : Pubkey → Pubkey → ℕ → ℕ → Pubkey → Instruction) where
    abbrev unwrap_or : Option ℕ → ℕ → ℕ
    unwrap_or none d = d
    unwrap_or (some n) d = n

    unfoldable pub create_account_with_config_excess_lamports :
        Pubkey → Pubkey → Rent → InitializeAccountInstructionData → Option ℕ → List Instruction
    unfolding initialize_account
    create_account_with_config_excess_lamports from_pubkey vote_pubkey rent instruction_data
          excess =
        create_account from_pubkey vote_pubkey
          (saturating_add (rent.minimum_balance pod_vote_state.size) (unwrap_or excess 0))
          pod_vote_state.size id
        ∷ initialize_account vote_pubkey instruction_data
        ∷ []

    unfoldable pub create_account_with_config :
        Pubkey → Pubkey → Rent → InitializeAccountInstructionData → List Instruction
    unfolding create_account_with_config_excess_lamports
    create_account_with_config from_pubkey vote_pubkey rent instruction_data =
        create_account_with_config_excess_lamports from_pubkey vote_pubkey rent instruction_data
          none

  unfoldable pub authorize : Pubkey → Pubkey → Pubkey → AuthorityType → Instruction
  authorize vote_pubkey authorized_pubkey new_authorized_pubkey authority_type =
      encode_instruction P pod_authorize (vote_accounts vote_pubkey authorized_pubkey)
        VoteInstruction.authorize
        (record {
          new_authorized_pubkey = new_authorized_pubkey;
          authority_type = authority_type_to_u8 authority_type;
        })

  unfoldable pub authorize_checked : Pubkey → Pubkey → Pubkey → AuthorityType → Instruction
  authorize_checked vote_pubkey authorized_pubkey new_authorized_pubkey authority_type =
      encode_instruction P pod_u8
        (writable vote_pubkey
          ∷ readonly_signer authorized_pubkey
          ∷ readonly_signer new_authorized_pubkey
          ∷ [])
        VoteInstruction.authorize_checked (authority_type_to_u8 authority_type)

  unfoldable pub authorize_with_seed :
      Pubkey → Pubkey → Pubkey → Bytes → Pubkey → AuthorityType → Instruction
  authorize_with_seed vote_pubkey base_key owner seed new_authority authority_type =
      encode_instruction_with_seed P pod_with_seed (vote_accounts vote_pubkey base_key)
        VoteInstruction.authorize_with_seed
        (record {
          authority_type = authority_type_to_u8 authority_type;
          current_authority_derived_key_owner = owner;
          new_authority = new_authority;
        })
        (some seed)

  unfoldable pub authorize_checked_with_seed :
      Pubkey → Pubkey → Pubkey → Bytes → Pubkey → AuthorityType → Instruction
  authorize_checked_with_seed vote_pubkey base_key owner seed new_authority authority_type =
      encode_instruction_with_seed P pod_checked_with_seed
        (writable vote_pubkey ∷ readonly_signer base_key ∷ readonly_signer new_authority ∷ [])
        VoteInstruction.authorize_checked_with_seed
        (record {
          authority_type = authority_type_to_u8 authority_type;
          current_authority_derived_key_owner = owner;
        })
        (some seed)

  unfoldable pub withdraw : Pubkey → Pubkey → ℕ → Pubkey → Instruction
  withdraw vote_pubkey authorized_withdrawer_pubkey lamports recipient_pubkey =
      encode_instruction P pod_u64
        (writable vote_pubkey
          ∷ writable recipient_pubkey
          ∷ readonly_signer authorized_withdrawer_pubkey
          ∷ [])
        VoteInstruction.withdraw lamports

  unfoldable pub update_validator_identity : Pubkey → Pubkey → Pubkey → Instruction
  update_validator_identity vote_pubkey authorized_withdrawer_pubkey new_node_pubkey = record {
    program_id = id;
    accounts =
        writable vote_pubkey
        ∷ readonly_signer new_node_pubkey
        ∷ readonly_signer authorized_withdrawer_pubkey
        ∷ [];
    payload = to_u8 VoteInstruction.update_validator_identity ∷ [];
  }

  unfoldable pub update_commission : Pubkey → Pubkey → ℕ → Instruction
  update_commission vote_pubkey authorized_withdrawer_pubkey new_commission =
      encode_instruction P pod_u8 (vote_accounts vote_pubkey authorized_withdrawer_pubkey)
        VoteInstruction.update_commission new_commission
