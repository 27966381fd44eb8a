-- ===== src/Client.antt =====
-- What a client asks of a vote account: the administrative builders of program/src/instruction.rs, and
-- the handlers of program/src/accounting.rs and processor.rs that each of them asks for.
use alpenglow_vote.Base.{ℕ, ◌<◌, ◌^◌, ◌≡◌, ◌∷◌, [], List, true, length, not}
use alpenglow_vote.Word.{IsU8, IsU64, u64_max}
use alpenglow_vote.Error.{insufficient_funds}
use alpenglow_vote.Exec.{Exec, ◌>>=◌, ◌>>◌, lift, fail_if}
use alpenglow_vote.Pod.{Bytes}
use alpenglow_vote.Records.{Pubkey, IsBytes32}
use alpenglow_vote.InstructionData.{
  AuthorityType, InitializeAccountInstructionData, IsInitializeData,
}
use alpenglow_vote.Platform.{Platform, AccountInfo, Clock, EpochSchedule, Rent}
use alpenglow_vote.Account.{Store, account_lamports, account_data_len}
use alpenglow_vote.Accounting
use alpenglow_vote.Builders
use alpenglow_vote.Instruction.{Instruction}
use alpenglow_vote.Processor

-- What a client asks of a vote account, with the accounts that it passes after it.
pub data Request : Type 0 where
  initialize_account : AccountInfo → InitializeAccountInstructionData → Request
  authorize : AccountInfo → Pubkey → AuthorityType → Request
  authorize_checked : AccountInfo → AccountInfo → AuthorityType → Request
  authorize_with_seed : AccountInfo → Pubkey → Bytes → Pubkey → AuthorityType → Request
  authorize_checked_with_seed : AccountInfo → AccountInfo → Pubkey → Bytes → AuthorityType → Request
  withdraw : AccountInfo → AccountInfo → ℕ → Request
  update_validator_identity : AccountInfo → AccountInfo → Request
  update_commission : AccountInfo → ℕ → Request

abbrev pub accounts_of : Request → List AccountInfo
accounts_of (initialize_account node d) = node ∷ []
accounts_of (authorize authority key type) = authority ∷ []
accounts_of (authorize_checked authority new_authority type) = authority ∷ new_authority ∷ []
accounts_of (authorize_with_seed base owner seed key type) = base ∷ []
accounts_of (authorize_checked_with_seed base new_authority owner seed type) =
    base ∷ new_authority ∷ []
accounts_of (withdraw recipient authority lamports) = recipient ∷ authority ∷ []
accounts_of (update_validator_identity node authority) = node ∷ authority ∷ []
accounts_of (update_commission authority commission) = authority ∷ []

module _ (P : Platform) where
  open P use {bls_pubkey_bound, is_utf8, create_with_seed, pod_vote_state}

  -- The builder's instruction for the vote account with the key `k`.
  abbrev pub build : Pubkey → Request → Instruction
  build k (initialize_account node d) = Builders.initialize_account P k d
  build k (authorize authority key type) = Builders.authorize P k authority.key key type
  build k (authorize_checked authority new_authority type) =
      Builders.authorize_checked P k authority.key new_authority.key type
  build k (authorize_with_seed base owner seed key type) =
      Builders.authorize_with_seed P k base.key owner seed key type
  build k (authorize_checked_with_seed base new_authority owner seed type) =
      Builders.authorize_checked_with_seed P k base.key owner seed new_authority.key type
  build k (withdraw recipient authority lamports) =
      Builders.withdraw P k authority.key lamports recipient.key
  build k (update_validator_identity node authority) =
      Builders.update_validator_identity P k authority.key node.key
  build k (update_commission authority commission) =
      Builders.update_commission P k authority.key commission

  -- The values of a request fit their fields, and a seed is text.
  abbrev pub IsRequest : Request → Type 0
  IsRequest (initialize_account node d) = IsInitializeData bls_pubkey_bound d
  IsRequest (authorize authority key type) = IsBytes32 key
  IsRequest (authorize_checked authority new_authority type) = Unit {0}
  IsRequest (authorize_with_seed base owner seed key type) =
      IsBytes32 owner × IsBytes32 key × (length seed < 2 ^ 32) × (is_utf8 seed ≡ true)
  IsRequest (authorize_checked_with_seed base new_authority owner seed type) =
      IsBytes32 owner × (length seed < 2 ^ 32) × (is_utf8 seed ≡ true)
  IsRequest (withdraw recipient authority lamports) = IsU64 lamports
  IsRequest (update_validator_identity node authority) = Unit {0}
  IsRequest (update_commission authority commission) = IsU8 commission

  -- The layouts are shorter than the largest u64.
  pub record AreSmall : Type 0 where
    pub u8_small : P.pod_u8.size < u64_max
    pub u64_small : P.pod_u64.size < u64_max
    pub initialize_small : P.pod_initialize.size < u64_max
    pub authorize_small : P.pod_authorize.size < u64_max
    pub with_seed_small : P.pod_with_seed.size < u64_max
    pub checked_with_seed_small : P.pod_checked_with_seed.size < u64_max

  module _ (cell : ℕ) (rent : Rent) (clock : Clock) (schedule : EpochSchedule) where
    -- What a request asks for: a call of a handler on the vote account in `cell`.
    abbrev pub perform : Request → Exec Store (Unit {0})
    perform (initialize_account node d) = do
      lamports ← account_lamports cell
      data_len ← account_data_len cell
      fail_if (not (rent.is_exempt lamports data_len)) insufficient_funds
      Processor.initialize_account P cell d clock
    perform (authorize authority key type) =
        Accounting.authorize P cell key type authority.key clock
    perform (authorize_checked authority new_authority type) =
        Accounting.authorize P cell new_authority.key type authority.key clock
    perform (authorize_with_seed base owner seed key type) = do
      authority ← lift (create_with_seed base.key seed owner)
      Accounting.authorize P cell key type authority clock
    perform (authorize_checked_with_seed base new_authority owner seed type) = do
      authority ← lift (create_with_seed base.key seed owner)
      Accounting.authorize P cell new_authority.key type authority clock
    perform (withdraw recipient authority lamports) =
        Accounting.withdraw P cell recipient.cell lamports authority.key rent clock
    perform (update_validator_identity node authority) =
        Accounting.update_validator_identity P cell node.key authority.key
    perform (update_commission authority commission) =
        Accounting.update_commission P cell commission authority.key schedule clock
