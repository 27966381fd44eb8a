-- ===== src/Processor/Writes.antt =====
-- Which accounts the administrative instructions of program/src/processor.rs write: those that the
-- builders of program/src/instruction.rs mark as writable.
use alpenglow_vote.Base.{ℕ, ◌≡◌, ◌⊎◌, inl, inr, refl, ap, ◌∙◌, ◌∷◌, List, true, not}
use alpenglow_vote.Error.{insufficient_funds}
use alpenglow_vote.Exec.{ok}
use alpenglow_vote.Platform.{Platform, AccountInfo, Sysvars, Clock, EpochSchedule, Rent}
use alpenglow_vote.Account.{Store}
use alpenglow_vote.Account.Local.Borrows.{account_lamports-IsLocal, account_data_len-IsLocal}
use alpenglow_vote.Account.Local.{IsLocal, bind-IsLocal, lift-bind-IsLocal, fail_if-bind-IsLocal}
use alpenglow_vote.Accounting.Local.{
  authorize-IsLocal, update_validator_identity-IsLocal, update_commission-IsLocal, withdraw-IsLocal,
}
use alpenglow_vote.Builders
use alpenglow_vote.Client.{
  Request, initialize_account, authorize, authorize_checked, authorize_with_seed,
  authorize_checked_with_seed, withdraw, update_validator_identity, update_commission, accounts_of,
  build, IsRequest, AreSmall, perform,
}
use alpenglow_vote.Instruction.{AccountMeta, encode_instruction, encode_instruction_with_seed}
use alpenglow_vote.Processor.{process_instruction}
use alpenglow_vote.Processor.EndToEnd.{AreResolved}
use alpenglow_vote.Processor.Requests.{process-build}
use alpenglow_vote.Processor.Locality.Steps.{initialize_account-IsLocal}

-- The cell `j` is that of an account that is marked as writable.
abbrev pub IsWritable : ℕ → List AccountMeta → List AccountInfo → Type 0
IsWritable j (m ∷ metas) (a ∷ accounts) =
    ((m.is_writable ≡ true) × (a.cell ≡ j)) ⊎ IsWritable j metas accounts
IsWritable j _ _ = ⊥

-- the account that a withdrawal pays
abbrev PaysIn : (ℕ → Type 0) → Request → Type 0
PaysIn C (withdraw recipient authority lamports) = C recipient.cell
PaysIn C _ = Unit {0}

module _ (P : Platform) (C : ℕ → Type 0) (cell : ℕ) (own : C cell) (rent : Rent) (clock : Clock)
    (schedule : EpochSchedule) where
  perform-IsLocal : (r : Request) → PaysIn C r → IsLocal C (perform P cell rent clock schedule r)
  perform-IsLocal (initialize_account node d) h =
      bind-IsLocal C _ _ (account_lamports-IsLocal C cell own) λ lamports.
        bind-IsLocal C _ _ (account_data_len-IsLocal C cell own) λ n.
          fail_if-bind-IsLocal C (not (rent.is_exempt lamports n)) insufficient_funds _
            (initialize_account-IsLocal P C cell own d clock)
  perform-IsLocal (authorize a key type) h = authorize-IsLocal P C cell own key type a.key clock
  perform-IsLocal (authorize_checked a b type) h =
      authorize-IsLocal P C cell own b.key type a.key clock
  perform-IsLocal (authorize_with_seed a owner seed key type) h =
      lift-bind-IsLocal C (P.create_with_seed a.key seed owner) _
        λ by _. authorize-IsLocal P C cell own key type by clock
  perform-IsLocal (authorize_checked_with_seed a b owner seed type) h =
      lift-bind-IsLocal C (P.create_with_seed a.key seed owner) _
        λ by _. authorize-IsLocal P C cell own b.key type by clock
  perform-IsLocal (withdraw a b lamports) h =
      withdraw-IsLocal P C cell own a.cell h lamports b.key rent clock
  perform-IsLocal (update_validator_identity a b) h =
      update_validator_identity-IsLocal P C cell own a.key b.key
  perform-IsLocal (update_commission a commission) h =
      update_commission-IsLocal P C cell own commission a.key schedule clock

module _ (P : Platform) (account : AccountInfo) where
  -- the accounts that the builder of a request marks
  abbrev pub Marked : Request → ℕ → Type 0
  Marked r j = IsWritable j (build P account.key r).accounts (account ∷ accounts_of r)

  account-Marked : (r : Request) → Marked r account.cell
  unfolding Builders.initialize_account Builders.authorize Builders.authorize_checked
      Builders.authorize_with_seed Builders.authorize_checked_with_seed Builders.withdraw
      Builders.update_validator_identity Builders.update_commission encode_instruction
      encode_instruction_with_seed
  account-Marked (initialize_account node d) = inl (refl, refl)
  account-Marked (authorize a key type) = inl (refl, refl)
  account-Marked (authorize_checked a b type) = inl (refl, refl)
  account-Marked (authorize_with_seed a owner seed key type) = inl (refl, refl)
  account-Marked (authorize_checked_with_seed a b owner seed type) = inl (refl, refl)
  account-Marked (withdraw a b lamports) = inl (refl, refl)
  account-Marked (update_validator_identity a b) = inl (refl, refl)
  account-Marked (update_commission a commission) = inl (refl, refl)

  recipient-Marked : (r : Request) → PaysIn (Marked r) r
  unfolding Builders.withdraw encode_instruction encode_instruction_with_seed
  recipient-Marked (withdraw a b lamports) = inr (inl (refl, refl))
  recipient-Marked (initialize_account node d) = tt
  recipient-Marked _ = tt

module _ (P : Platform) (sysvars : Sysvars) (rent : Rent) (clock : Clock) (schedule : EpochSchedule)
    (account : AccountInfo) (st : Store) (small : AreSmall P) (owned : account.owner ≡ P.id)
    (hr : sysvars.rent ≡ ok rent) (hc : sysvars.clock ≡ ok clock)
    (hs : sysvars.epoch_schedule ≡ ok schedule) where
  -- Let the sysvars be there and the vote account be the program's. A request whose values fit their
  -- fields, sent as its builder writes it with the accounts and signatures that it lists, leaves every
  -- account as it was that the builder does not mark as writable, also where it fails or panics.
  pub process-build_writes :
      (r : Request)
      → IsRequest P r
      → AreResolved (build P account.key r).accounts (account ∷ accounts_of r)
      → (j : ℕ) → (Marked P account r j → ⊥)
      → (process_instruction P sysvars P.id
            (account ∷ accounts_of r)
            (build P account.key r).payload
            st).1
          j
        ≡ st j
  process-build_writes r hv resolved j unmarked =
      let local =
        perform-IsLocal P (Marked P account r) account.cell (account-Marked P account r) rent clock
          schedule r (recipient-Marked P account r) in
      ap (λ x. x.1 j)
        (process-build P sysvars rent clock schedule account st small owned hr hc hs r hv resolved)
      ∙ local.rest st j unmarked
