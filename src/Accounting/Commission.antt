-- ===== src/Accounting/Commission.antt =====
-- `update_commission` and `is_commission_update_allowed` of program/src/accounting.rs.
use alpenglow_vote.Base.{ℕ, ◌-◌, ◌*◌, ◌%◌, ◌≤◌, ◌<◌, ◌≡◌, ◌≢◌, ◌↔◌, ◌⊎◌, true, arith}
use alpenglow_vote.Word.{u64_max}
use alpenglow_vote.Error.{from_vote_error, commission_update_too_late}
use alpenglow_vote.Exec.{after, ok, err}
use alpenglow_vote.Records.{Pubkey, Slot}
use alpenglow_vote.State.{VoteState}
use alpenglow_vote.Platform.{Clock, EpochSchedule}
use alpenglow_vote.Accounting.{is_commission_update_allowed, update_commission_state}

-- How far `slot` is into its epoch; slots before the first normal one count as the first.
abbrev pub into_epoch : Slot → EpochSchedule → ℕ
into_epoch slot schedule = (slot - schedule.first_normal_slot) % schedule.slots_per_epoch

-- Where an epoch has slots, fewer than the largest u64, an update is allowed exactly in its first
-- half, the midpoint included.
pub is_commission_update_allowed_iff :
    (slot : Slot) (schedule : EpochSchedule)
    → schedule.slots_per_epoch ≢ 0
    → schedule.slots_per_epoch < u64_max
    → (is_commission_update_allowed slot schedule ≡ true)
      ↔ (into_epoch slot schedule * 2 ≤ schedule.slots_per_epoch)
unfolding is_commission_update_allowed
is_commission_update_allowed_iff slot schedule hz hm = ground arith

-- `update_commission` succeeds exactly when the withdrawer signs and either the commission goes up
-- or the slot lies where updates are allowed. It then changes only the commission, and otherwise
-- nothing.
pub update_commission_state_iff :
    (commission : ℕ) (by : Pubkey) (schedule : EpochSchedule) (clock : Clock) (s : VoteState)
    → let (r, t) = update_commission_state commission by schedule clock s in
      ((r ≡ ok tt) ↔ (
        (s.authorized_withdrawer ≡ by)
        × ((s.commission < commission)
            ⊎ (is_commission_update_allowed clock.slot schedule ≡ true))))
      × (t ≡ after r s (record s { commission = commission }))
unfolding update_commission_state
update_commission_state_iff commission by schedule clock s = ground arith

-- Where an epoch has slots, fewer than the largest u64: in its second half the withdrawer can raise the commission, and an attempt to lower
-- or to repeat it is refused as too late.
pub update_commission_state_late :
    (commission : ℕ) (schedule : EpochSchedule) (clock : Clock) (s : VoteState)
    → schedule.slots_per_epoch ≢ 0
    → schedule.slots_per_epoch < u64_max
    → schedule.slots_per_epoch < into_epoch clock.slot schedule * 2
    → let r = (update_commission_state commission s.authorized_withdrawer schedule clock s).0 in
      ((r ≡ ok tt) ↔ (s.commission < commission))
      × ((r ≡ err (from_vote_error commission_update_too_late)) ↔ (commission ≤ s.commission))
unfolding update_commission_state
update_commission_state_late commission schedule clock s hz hm late =
    ground (arith, is_commission_update_allowed_iff clock.slot schedule hz hm)
