-- ===== src/Processor/Allowed.antt =====
-- Who may do what with the instructions that a client builds: when `process_instruction` of
-- program/src/processor.rs accepts them.
use alpenglow_vote.Base.{ℕ, ◌-◌, ◌+◌, ◌≤◌, ◌<◌, ◌≡◌, ◌≢◌, ◌↔◌, ◌⊎◌, ◌∷◌, true, refl, arith}
use mathlib.Core.Path.{subst}
use alpenglow_vote.Word.{u64_max}
use alpenglow_vote.Error.{account_borrow_failed}
use alpenglow_vote.Exec.{Outcome, ok, err, panic, lift, ◌>>=◌}
use alpenglow_vote.Pod.{Bytes}
use alpenglow_vote.Records.{Pubkey}
use alpenglow_vote.InstructionData.{AuthorityType}
use alpenglow_vote.State.{VoteState}
use alpenglow_vote.Platform.{Platform, AccountInfo, Sysvars, Clock, EpochSchedule, Rent}
use alpenglow_vote.Account.{Store}
use alpenglow_vote.Account.Laws.{IsIdle, Holds, borrow_mut_data-cast_mut}
use alpenglow_vote.Accounting
use alpenglow_vote.Accounting.{
  authorize_state, update_validator_identity_state, update_commission_state,
  is_commission_update_allowed,
}
use alpenglow_vote.Accounting.Authority.{
  MayAuthorize, authorize_state_iff, update_validator_identity_state_iff,
}
use alpenglow_vote.Accounting.Commission.{update_commission_state_iff}
use alpenglow_vote.Accounting.Withdraw.{withdraw_ok_iff}
use alpenglow_vote.Client.{
  Request, initialize_account, authorize, authorize_checked, authorize_with_seed,
  authorize_checked_with_seed, withdraw, update_validator_identity, update_commission, accounts_of,
  build, IsRequest, AreSmall, perform,
}
use alpenglow_vote.Processor.{process_instruction}
use alpenglow_vote.Processor.EndToEnd.{AreResolved}
use alpenglow_vote.Processor.Initialize.{initialize_account_iff}
use alpenglow_vote.Processor.Requests.{process-build}

module _ (P : Platform) (rent : Rent) (clock : Clock) (schedule : EpochSchedule) (cell : ℕ)
    (s : VoteState) (st : Store) where
  open P use {create_with_seed, pod_vote_state}

  abbrev MayWithSeed : AccountInfo → Pubkey → Bytes → AuthorityType → Type 0
  MayWithSeed base owner seed type =
      (k : Pubkey) × (create_with_seed base.key seed owner ≡ ok k) × MayAuthorize type k clock s

  -- The requests that are granted on the vote state `s`.
  abbrev pub IsAllowed : Request → Type 0
  IsAllowed (initialize_account node d) =
      (rent.is_exempt (st cell).lamports pod_vote_state.size ≡ true) × (s.version ≡ 0)
  IsAllowed (authorize authority key type) = MayAuthorize type authority.key clock s
  IsAllowed (authorize_checked authority new_authority type) =
      MayAuthorize type authority.key clock s
  IsAllowed (authorize_with_seed base owner seed key type) = MayWithSeed base owner seed type
  IsAllowed (authorize_checked_with_seed base new_authority owner seed type) =
      MayWithSeed base owner seed type
  IsAllowed (withdraw recipient authority lamports) =
      (s.authorized_withdrawer ≡ authority.key)
      × (lamports < (st cell).lamports)
      × (rent.minimum_balance pod_vote_state.size ≤ (st cell).lamports - lamports)
      × (cell ≢ recipient.cell)
      × ((st recipient.cell).lamports + lamports ≤ u64_max)
  IsAllowed (update_validator_identity node authority) = s.authorized_withdrawer ≡ authority.key
  IsAllowed (update_commission authority commission) =
      (s.authorized_withdrawer ≡ authority.key)
      × ((s.commission < commission) ⊎ (is_commission_update_allowed clock.slot schedule ≡ true))

  module _ (h : Holds P cell s st) (idle : (j : ℕ) → IsIdle j st) where
    authorize_ok_iff :
        (key by : Pubkey) (type : AuthorityType)
        → ((Accounting.authorize P cell key type by clock st).0 ≡ ok tt)
          ↔ MayAuthorize type by clock s
    unfolding Accounting.authorize
    authorize_ok_iff key by type =
        rw
          (borrow_mut_data-cast_mut P (err account_borrow_failed) (err P.pod_cast_error) cell
            (authorize_state key type by clock) s st h)
          ((authorize_state_iff key type by clock s).0)

    with_seed_ok_iff :
        (r : Outcome Pubkey) (key : Pubkey) (type : AuthorityType)
        → (((lift r >>= λ by. Accounting.authorize P cell key type by clock) st).0 ≡ ok tt)
          ↔ ((by : Pubkey) × (r ≡ ok by) × MayAuthorize type by clock s)
    with_seed_ok_iff (ok by) key type =
        let (to, from) = authorize_ok_iff key by type in
        (
          λ e. (by, refl, to e),
          λ (k, e, may). from (subst (λ x. MayAuthorize type x clock s) (cc) may),
        )
    with_seed_ok_iff (err e) key type = (λ e. cc, λ (k, e, may). cc)
    with_seed_ok_iff panic key type = (λ e. cc, λ (k, e, may). cc)

    perform_ok_iff :
        (r : Request) → ((perform P cell rent clock schedule r st).0 ≡ ok tt) ↔ IsAllowed r
    unfolding Accounting.update_validator_identity Accounting.update_commission
    perform_ok_iff (initialize_account node d) = ground (
      arith,
      h.stored,
      pod_vote_state.length_law s,
      (initialize_account_iff P cell d clock s st h).0,
    )
    perform_ok_iff (authorize a key type) = authorize_ok_iff key a.key type
    perform_ok_iff (authorize_checked a b type) = authorize_ok_iff b.key a.key type
    perform_ok_iff (authorize_with_seed a owner seed key type) =
        with_seed_ok_iff (create_with_seed a.key seed owner) key type
    perform_ok_iff (authorize_checked_with_seed a b owner seed type) =
        with_seed_ok_iff (create_with_seed a.key seed owner) b.key type
    perform_ok_iff (withdraw a b lamports) =
        withdraw_ok_iff P cell a.cell lamports b.key rent clock s st h (idle a.cell)
    perform_ok_iff (update_validator_identity a b) =
        rw
          (borrow_mut_data-cast_mut P (err account_borrow_failed) (err P.pod_cast_error) cell
            (update_validator_identity_state a.key b.key) s st h)
          ((update_validator_identity_state_iff a.key b.key s).0)
    perform_ok_iff (update_commission a commission) =
        rw
          (borrow_mut_data-cast_mut P (err account_borrow_failed) (err P.pod_cast_error) cell
            (update_commission_state commission a.key schedule clock) s st h)
          ((update_commission_state_iff commission a.key schedule clock s).0)

module _ (P : Platform) (sysvars : Sysvars) (rent : Rent) (clock : Clock) (schedule : EpochSchedule)
    (account : AccountInfo) (s : VoteState) (st : Store) (h : Holds P account.cell s st)
    (idle : (j : ℕ) → IsIdle j st) (small : AreSmall P) (owned : account.owner ≡ P.id)
    (hr : sysvars.rent ≡ ok rent) (hc : sysvars.clock ≡ ok clock)
    (hs : sysvars.epoch_schedule ≡ ok schedule) where
  -- Let the sysvars be there, nothing be borrowed, and the vote account be the program's and hold a
  -- vote state. A request whose values fit their fields, sent as its builder writes it with the
  -- accounts and signatures that it lists, succeeds exactly if it is allowed on that vote state.
  pub process-build_ok_iff :
      (r : Request)
      → IsRequest P r
      → AreResolved (build P account.key r).accounts (account ∷ accounts_of r)
      → ((process_instruction P sysvars P.id
            (account ∷ accounts_of r)
            (build P account.key r).payload
            st).0
          ≡ ok tt)
        ↔ IsAllowed P rent clock schedule account.cell s st r
  process-build_ok_iff r hv resolved =
      rw (process-build P sysvars rent clock schedule account st small owned hr hc hs r hv resolved)
        (perform_ok_iff P rent clock schedule account.cell s st h idle r)
