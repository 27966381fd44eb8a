-- ===== src/Accounting.antt =====
-- program/src/accounting.rs: changing authorities, withdrawing, the validator's identity and the
-- commission. The `*_state` definitions are the handlers below their cast, over `&mut VoteState`.
pub mod Authority
pub mod Commission
pub mod Local
pub mod Withdraw
use alpenglow_vote.Base.{
  ℕ, Bool, true, ◌&&◌, not, some, none, length, ltb, leb, ◌==◌, ◌/=◌, if◌then◌else◌,
}
use alpenglow_vote.Word.{saturating_sub, saturating_mul, checked_add, checked_sub, checked_rem}
use alpenglow_vote.Error.{
  account_borrow_failed, missing_required_signature, invalid_instruction_data, insufficient_funds,
  arithmetic_overflow, from_vote_error, active_vote_account_close, commission_update_too_late,
}
use alpenglow_vote.Exec.{err, Exec, ◌>>=◌, ◌>>◌, lift, ok_or, gets, fail_if, modify}
use alpenglow_vote.Records.{Pubkey, Slot}
use alpenglow_vote.Records.AuthorizedVoter
use alpenglow_vote.Records.Getters.{epoch_credit_epoch}
use alpenglow_vote.InstructionData.{AuthorityType, voter, withdrawer}
use alpenglow_vote.State.{VoteState, default}
use alpenglow_vote.Platform.{Platform, Clock, EpochSchedule, Rent}
use alpenglow_vote.Account.{
  Store, account_data_len, set_lamports, borrow_data, borrow_mut_data, borrow_mut_lamports,
  try_lamports, cast_mut, cast, set_vote_account_state,
}

unfoldable pub authorize_state : Pubkey → AuthorityType → Pubkey → Clock → Exec VoteState (Unit {0})
unfolding checked_add
authorize_state new_authority voter authority clock = do
  s ← gets λ s. s
  fail_if (s.authorized_withdrawer /= authority && s.authorized_voter.voter /= authority)
      missing_required_signature
  epoch_in_effect ← ok_or (checked_add clock.leader_schedule_epoch 1) invalid_instruction_data
  modify λ s. record s {
    next_authorized_voter = some (AuthorizedVoter.new epoch_in_effect new_authority);
  }
authorize_state new_authority withdrawer authority clock = do
  s ← gets λ s. s
  fail_if (s.authorized_withdrawer /= authority) missing_required_signature
  modify λ s. record s { authorized_withdrawer = new_authority }

unfoldable pub update_validator_identity_state : Pubkey → Pubkey → Exec VoteState (Unit {0})
update_validator_identity_state new_node_pubkey withdraw_pubkey = do
  s ← gets λ s. s
  fail_if (s.authorized_withdrawer /= withdraw_pubkey) missing_required_signature
  modify λ s. record s { node_pubkey = new_node_pubkey }

unfoldable pub is_commission_update_allowed : Slot → EpochSchedule → Bool
unfolding saturating_sub saturating_mul checked_rem
is_commission_update_allowed slot epoch_schedule =
    elim (checked_rem (saturating_sub slot epoch_schedule.first_normal_slot)
      epoch_schedule.slots_per_epoch) [
        | some relative_slot ↦ leb (saturating_mul relative_slot 2) epoch_schedule.slots_per_epoch
        | none ↦ true
      ]

unfoldable pub update_commission_state :
    ℕ → Pubkey → EpochSchedule → Clock → Exec VoteState (Unit {0})
update_commission_state commission withdraw_pubkey epoch_schedule clock = do
  s ← gets λ s. s
  fail_if (s.authorized_withdrawer /= withdraw_pubkey) missing_required_signature
  let is_commission_increase = ltb s.commission commission
  fail_if
      (not is_commission_increase && not (is_commission_update_allowed clock.slot epoch_schedule))
      (from_vote_error commission_update_too_late)
  modify λ s. record s { commission = commission }

module _ (P : Platform) where
  open P use {pod_cast_error}

  unfoldable pub authorize : ℕ → Pubkey → AuthorityType → Pubkey → Clock → Exec Store (Unit {0})
  authorize vote_account new_authority vote_authorize authority clock =
      borrow_mut_data (err account_borrow_failed) vote_account (
        cast_mut P (err pod_cast_error)
          (authorize_state new_authority vote_authorize authority clock))

  unfoldable pub update_validator_identity : ℕ → Pubkey → Pubkey → Exec Store (Unit {0})
  update_validator_identity vote_account new_node_pubkey withdraw_pubkey =
      borrow_mut_data (err account_borrow_failed) vote_account (
        cast_mut P (err pod_cast_error)
          (update_validator_identity_state new_node_pubkey withdraw_pubkey))

  unfoldable pub update_commission : ℕ → ℕ → Pubkey → EpochSchedule → Clock → Exec Store (Unit {0})
  update_commission vote_account commission withdraw_pubkey epoch_schedule clock =
      borrow_mut_data (err account_borrow_failed) vote_account (
        cast_mut P (err pod_cast_error)
          (update_commission_state commission withdraw_pubkey epoch_schedule clock))

  -- What `withdraw` does where nothing would be left: close the account, unless it voted lately.
  unfoldable pub close : ℕ → VoteState → Clock → Exec Store (Unit {0})
  unfolding saturating_sub set_vote_account_state
  close vote_account vote_state clock = do
    let last_epoch_with_credits = epoch_credit_epoch vote_state.epoch_credits
    let current_epoch = clock.epoch
    let reject_active_vote_account_close =
        ltb (saturating_sub current_epoch last_epoch_with_credits) 2
    fail_if reject_active_vote_account_close (from_vote_error active_vote_account_close)
    set_vote_account_state P vote_account default

  -- The part of `withdraw` that moves the lamports. The guard on the vote account's lamports
  -- lives on while the recipient's are borrowed.
  unfoldable pub move_lamports : ℕ → ℕ → ℕ → Exec Store (Unit {0})
  unfolding borrow_mut_lamports checked_add checked_sub
  move_lamports vote_account recipient lamports = borrow_mut_lamports vote_account do
    vote_account_lamports ← gets λ st. (st vote_account).lamports
    left ← ok_or (checked_sub vote_account_lamports lamports) insufficient_funds
    modify (set_lamports vote_account left)
    borrow_mut_lamports recipient do
      recipient_lamports ← gets λ st. (st recipient).lamports
      total ← ok_or (checked_add recipient_lamports lamports) arithmetic_overflow
      modify (set_lamports recipient total)

  -- `minimum_balance(data_len)`; the data is under a shared borrow by then.
  abbrev keep_rent_exempt : ℕ → ℕ → Rent → Exec Store (Unit {0})
  keep_rent_exempt vote_account remaining_balance rent_sysvar = do
    data_len ← account_data_len vote_account
    fail_if (ltb remaining_balance (rent_sysvar.minimum_balance data_len)) insufficient_funds

  -- The first `vote_state` of `withdraw` is a guard on the data that lives to its end.
  unfoldable pub withdraw : ℕ → ℕ → ℕ → Pubkey → Rent → Clock → Exec Store (Unit {0})
  unfolding close move_lamports borrow_data cast try_lamports checked_sub
  withdraw vote_account recipient lamports withdraw_pubkey rent_sysvar clock =
      borrow_data vote_account λ bytes. do
        vote_state ← lift (cast P bytes)
        fail_if (vote_state.authorized_withdrawer /= withdraw_pubkey) missing_required_signature
        balance ← try_lamports vote_account
        remaining_balance ← ok_or (checked_sub balance lamports) insufficient_funds
        (if remaining_balance == 0
            then close vote_account vote_state clock
            else keep_rent_exempt vote_account remaining_balance rent_sysvar)
        move_lamports vote_account recipient lamports
