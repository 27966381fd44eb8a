-- ===== src/Processor/Requests.antt =====
-- A client's administrative instructions through the whole program: the builders of
-- program/src/instruction.rs, `process_instruction` of program/src/processor.rs, and the handlers of
-- program/src/accounting.rs that they ask for.
use alpenglow_vote.Base.{◌≡◌, ◌∷◌, [], List, some, arith, refl, ◌∙◌}
use alpenglow_vote.Word.{IsU8}
use alpenglow_vote.Exec.{ok}
use alpenglow_vote.Pod.{Bytes}
use alpenglow_vote.Records.{Pubkey, IsBytes32}
use alpenglow_vote.InstructionData.{
  AuthorizeInstructionData, AuthorizeWithSeedInstructionData,
  AuthorizeCheckedWithSeedInstructionData, AuthorityType, authority_type_to_u8,
  authority_type_from_u8, voter, withdrawer, IsAuthorizeData, IsAuthorizeWithSeedData,
  IsAuthorizeCheckedWithSeedData,
}
use alpenglow_vote.Platform.{Platform, AccountInfo, Sysvars, Clock, EpochSchedule, Rent}
use alpenglow_vote.Account.{Store}
use alpenglow_vote.Client.{
  Request, initialize_account, authorize, authorize_checked, authorize_with_seed,
  authorize_checked_with_seed, withdraw, update_validator_identity, update_commission, accounts_of,
  build, IsRequest, AreSmall, perform,
}
use alpenglow_vote.Builders
use alpenglow_vote.Instruction.{
  to_u8, VoteInstruction, encode_instruction, encode_instruction_with_seed, decode_instruction_type,
}
use alpenglow_vote.Instruction.RoundTrip.{decode-encode, decode_with_seed-encode}
use alpenglow_vote.Instruction.Numbers.{decode_instruction_type_iff}
use alpenglow_vote.Processor.{
  process_instruction, dispatch, next_signer, process_initialize_account, process_authorize,
  process_authorize_checked, process_authorize_with_seed, process_authorize_checked_with_seed,
  process_withdraw, process_update_validator_identity, process_update_commission,
}
use alpenglow_vote.Processor.EndToEnd.{AreResolved}

-- The authority type of the instruction data is read back.
from-to_u8 : (type : AuthorityType) → authority_type_from_u8 (authority_type_to_u8 type) ≡ some type
unfolding authority_type_from_u8 authority_type_to_u8
from-to_u8 voter = refl
from-to_u8 withdrawer = refl

abbrev authorize_value : Pubkey → AuthorityType → AuthorizeInstructionData
authorize_value key type = record {
  new_authorized_pubkey = key;
  authority_type = authority_type_to_u8 type;
}

abbrev with_seed_value : Pubkey → Pubkey → AuthorityType → AuthorizeWithSeedInstructionData
with_seed_value owner key type = record {
  authority_type = authority_type_to_u8 type;
  current_authority_derived_key_owner = owner;
  new_authority = key;
}

abbrev checked_with_seed_value : Pubkey → AuthorityType → AuthorizeCheckedWithSeedInstructionData
checked_with_seed_value owner type = record {
  authority_type = authority_type_to_u8 type;
  current_authority_derived_key_owner = owner;
}

to_u8-IsU8 : (type : AuthorityType) → IsU8 (authority_type_to_u8 type)
unfolding authority_type_to_u8
to_u8-IsU8 type = ground arith

authorize_data :
    (key : Pubkey) (type : AuthorityType)
    → IsBytes32 key
    → IsAuthorizeData (authorize_value key type)
authorize_data key type h = record {
  new_authorized_pubkey_bytes = h;
  authority_type_u8 = to_u8-IsU8 type;
}

with_seed_data :
    (owner key : Pubkey) (type : AuthorityType)
    → IsBytes32 owner
    → IsBytes32 key
    → IsAuthorizeWithSeedData (with_seed_value owner key type)
with_seed_data owner key type ho hk = record {
  authority_type_u8 = to_u8-IsU8 type;
  owner_bytes = ho;
  new_authority_bytes = hk;
}

checked_with_seed_data :
    (owner : Pubkey) (type : AuthorityType)
    → IsBytes32 owner
    → IsAuthorizeCheckedWithSeedData (checked_with_seed_value owner type)
checked_with_seed_data owner type ho = record {
  authority_type_u8 = to_u8-IsU8 type;
  owner_bytes = ho;
}

module _ (P : Platform) (sysvars : Sysvars) (rent : Rent) (clock : Clock) (schedule : EpochSchedule)
    (account : AccountInfo) (st : Store) (small : AreSmall P) (owned : account.owner ≡ P.id)
    (hr : sysvars.rent ≡ ok rent) (hc : sysvars.clock ≡ ok clock)
    (hs : sysvars.epoch_schedule ≡ ok schedule) where
  request-dispatch :
      (i : VoteInstruction) (iter : List AccountInfo) (input : Bytes)
      → decode_instruction_type input ≡ ok i
      → process_instruction P sysvars P.id (account ∷ iter) input st
        ≡ dispatch P i sysvars account iter input st
  unfolding process_instruction
  request-dispatch i iter input number = ground (arith, number, P.next_law account iter)

  -- Let the sysvars be there and the vote account be the program's. For a request whose values fit
  -- their fields, sent as its builder writes it with the accounts and signatures that it lists, the
  -- program runs the handler that is asked for, on the values of the request: it ends with the same
  -- success, error or panic, and leaves the same store.
  pub process-build :
      (r : Request)
      → IsRequest P r
      → AreResolved (build P account.key r).accounts (account ∷ accounts_of r)
      → process_instruction P sysvars P.id
          (account ∷ accounts_of r)
          (build P account.key r).payload
          st
        ≡ perform P account.cell rent clock schedule r st
  unfolding dispatch next_signer encode_instruction encode_instruction_with_seed
      Builders.initialize_account Builders.authorize Builders.authorize_checked
      Builders.authorize_with_seed Builders.authorize_checked_with_seed Builders.withdraw
      Builders.update_validator_identity Builders.update_commission process_initialize_account
      process_authorize process_authorize_checked process_authorize_with_seed
      process_authorize_checked_with_seed process_withdraw process_update_validator_identity
      process_update_commission
  process-build (initialize_account node d) h (_, _, (key_node, signs_node, _)) =
      let (number, value) =
        decode-encode P P.pod_initialize (build P account.key (initialize_account node d)).accounts
          VoteInstruction.initialize_account d h small.initialize_small in
      request-dispatch VoteInstruction.initialize_account (node ∷ []) _ number
      ∙ grind (arith, value, P.next_law, P.signer_law, from-to_u8)
  process-build (authorize a key type) h (_, _, (_, signs_a, _)) =
      let (number, value) =
        decode-encode P P.pod_authorize (build P account.key (authorize a key type)).accounts
          VoteInstruction.authorize (authorize_value key type) (authorize_data key type h)
          small.authorize_small in
      request-dispatch VoteInstruction.authorize (a ∷ []) _ number
      ∙ grind (arith, value, P.next_law, P.signer_law, from-to_u8)
  process-build (authorize_checked a b type) h (_, _, (_, signs_a, (_, signs_b, _))) =
      let (number, value) =
        decode-encode P P.pod_u8 (build P account.key (authorize_checked a b type)).accounts
          VoteInstruction.authorize_checked (authority_type_to_u8 type) (to_u8-IsU8 type)
          small.u8_small in
      request-dispatch VoteInstruction.authorize_checked (a ∷ b ∷ []) _ number
      ∙ grind (arith, value, P.next_law, P.signer_law, from-to_u8)
  process-build (authorize_with_seed a owner seed key type) h (_, _, (_, signs_a, _)) =
      let (number, value) =
        decode_with_seed-encode P P.pod_with_seed
          (build P account.key (authorize_with_seed a owner seed key type)).accounts
          VoteInstruction.authorize_with_seed (with_seed_value owner key type) seed
          (with_seed_data owner key type h.0 h.1) small.with_seed_small h.2 in
      request-dispatch VoteInstruction.authorize_with_seed (a ∷ []) _ number
      ∙ grind (arith, value, P.next_law, P.signer_law, from-to_u8)
  process-build (authorize_checked_with_seed a b owner seed type) h
        (_, _, (_, signs_a, (_, signs_b, _))) =
      let (number, value) =
        decode_with_seed-encode P P.pod_checked_with_seed
          (build P account.key (authorize_checked_with_seed a b owner seed type)).accounts
          VoteInstruction.authorize_checked_with_seed (checked_with_seed_value owner type) seed
          (checked_with_seed_data owner type h.0) small.checked_with_seed_small h.1 in
      request-dispatch VoteInstruction.authorize_checked_with_seed (a ∷ b ∷ []) _ number
      ∙ grind (arith, value, P.next_law, P.signer_law, from-to_u8)
  process-build (withdraw a b lamports) h (_, _, (_, _, (_, signs_b, _))) =
      let (number, value) =
        decode-encode P P.pod_u64 (build P account.key (withdraw a b lamports)).accounts
          VoteInstruction.withdraw lamports h small.u64_small in
      request-dispatch VoteInstruction.withdraw (a ∷ b ∷ []) _ number
      ∙ grind (arith, value, P.next_law, P.signer_law, from-to_u8)
  process-build (update_validator_identity a b) h (_, _, (_, signs_a, (_, signs_b, _))) =
      let i = VoteInstruction.update_validator_identity in
      let number = (decode_instruction_type_iff (to_u8 i) [] i).1 refl in
      request-dispatch i (a ∷ b ∷ []) _ number ∙ grind (arith, P.next_law, P.signer_law)
  process-build (update_commission a commission) h (_, _, (_, signs_a, _)) =
      let (number, value) =
        decode-encode P P.pod_u8 (build P account.key (update_commission a commission)).accounts
          VoteInstruction.update_commission commission h small.u8_small in
      request-dispatch VoteInstruction.update_commission (a ∷ []) _ number
      ∙ grind (arith, value, P.next_law, P.signer_law, from-to_u8)
