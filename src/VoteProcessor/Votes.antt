-- ===== src/VoteProcessor/Votes.antt =====
-- The vote handlers of program/src/vote_processor.rs on the `VoteState`: when a vote is accepted
-- and what it changes.
use alpenglow_vote.Base.{ℕ, zero, suc, ◌+◌, ◌*◌, ◌-◌, ◌≤◌, ◌<◌, ◌≡◌, ◌↔◌, none, some, arith}
use alpenglow_vote.Word.{u64_max, saturating_add, saturating_sub_eq}
use alpenglow_vote.Exec.{after, ok, Exec, ◌>>◌}
use alpenglow_vote.Records.{Pubkey, Slot}
use alpenglow_vote.InstructionData.{NotarizationVoteInstructionData}
use alpenglow_vote.Records.EpochCredit
use alpenglow_vote.State.{VoteState}
use alpenglow_vote.Platform.{Clock, SlotHashes}
use alpenglow_vote.VoteProcessor.{
  latency_to_credits, earn, notarize_state, finalize_state, skip_state,
}

-- The state with the credits of a vote for `slot` that lands at `clock`.
unfoldable pub credited : Clock → Slot → VoteState → VoteState
credited clock slot s = record s {
  epoch_credits = earn clock.epoch (latency_to_credits (clock.slot - slot)) s.epoch_credits;
}

-- A notarization is accepted exactly when the voter signs, its version is 1 and the slot hashes
-- hold its replayed bank hash for its slot. It then credits its slot, and otherwise changes nothing.
pub notarize_state_iff :
    (authority : Pubkey) (clock : Clock) (hashes : SlotHashes) (v : NotarizationVoteInstructionData)
    (s : VoteState)
    → let (r, t) = notarize_state authority clock hashes v s in
      ((r ≡ ok tt) ↔ (
        (s.authorized_voter.voter ≡ authority)
        × (v.version ≡ 1)
        × (hashes.get v.slot ≡ ok (some v.replayed_bank_hash))))
      × (t ≡ after r s (credited clock v.slot s))
unfolding notarize_state credited
notarize_state_iff authority clock hashes v s = ground (arith, saturating_sub_eq clock.slot v.slot)

-- A finalization is accepted exactly when the voter signs: neither the slot nor the slot hashes
-- are looked at. It then credits its slot, and otherwise changes nothing.
pub finalize_state_iff :
    (authority : Pubkey) (clock : Clock) (slot : Slot) (s : VoteState)
    → let (r, t) = finalize_state authority clock slot s in
      ((r ≡ ok tt) ↔ (s.authorized_voter.voter ≡ authority))
      × (t ≡ after r s (credited clock slot s))
unfolding finalize_state credited
finalize_state_iff authority clock slot s = ground (arith, saturating_sub_eq clock.slot slot)

-- A skip is accepted exactly when the voter signs, its slot lies before the clock's and the slot
-- hashes have no entry for it. It then credits its slot, and otherwise changes nothing.
pub skip_state_iff :
    (authority : Pubkey) (clock : Clock) (hashes : SlotHashes) (slot : Slot) (s : VoteState)
    → let (r, t) = skip_state authority clock hashes slot s in
      ((r ≡ ok tt) ↔ (
        (s.authorized_voter.voter ≡ authority) × (slot < clock.slot) × (hashes.get slot ≡ ok none)))
      × (t ≡ after r s (credited clock slot s))
unfolding skip_state credited
skip_state_iff authority clock hashes slot s = ground (arith, saturating_sub_eq clock.slot slot)

-- A notarization and a skip of the same slot, in whatever order, at two times with whatever clocks, by
-- whatever voters and on whatever vote accounts, are not both accepted, if the slot hashes answer the
-- same for this slot at both times.
pub notarize-skip_exclusive :
    (a b : Pubkey) (clock clock' : Clock) (hashes hashes' : SlotHashes)
    (v : NotarizationVoteInstructionData) (s t : VoteState)
    → hashes.get v.slot ≡ hashes'.get v.slot
    → (notarize_state a clock hashes v s).0 ≡ ok tt
    → ¬ ((skip_state b clock' hashes' v.slot t).0 ≡ ok tt)
notarize-skip_exclusive a b clock clock' hashes hashes' v s t same hn hs = cc (
  ((notarize_state_iff a clock hashes v s).0.0 hn).2,
  ((skip_state_iff b clock' hashes' v.slot t).0.0 hs).2,
)

-- By the authorized voter, a finalization of a slot that the clock has not passed is accepted and
-- earns 16 credits.
pub finalize_state_future :
    (clock : Clock) (slot : Slot) (s : VoteState)
    → clock.slot ≤ slot
    → finalize_state s.authorized_voter.voter clock slot s
      ≡ (ok tt, record s { epoch_credits = earn clock.epoch 16 s.epoch_credits })
unfolding finalize_state latency_to_credits
finalize_state_future clock slot s h = ground (arith, saturating_sub_eq clock.slot slot)

-- The same finalization sent `k` times.
unfoldable pub finalize_times : ℕ → Pubkey → Clock → Slot → Exec VoteState (Unit {0})
finalize_times zero authority clock slot s = (ok tt, s)
finalize_times (suc k) authority clock slot s =
    (finalize_state authority clock slot >> finalize_times k authority clock slot) s

-- The state with `n` more credits in the recorded epoch.
abbrev pub paid : ℕ → VoteState → VoteState
paid n s = record s {
  epoch_credits = EpochCredit.set_credits (s.epoch_credits.credits + n) s.epoch_credits;
}

finalize_state_pays :
    (clock : Clock) (slot : Slot) (s : VoteState)
    → s.epoch_credits.epoch ≡ clock.epoch
    → s.epoch_credits.credits + latency_to_credits (clock.slot - slot) ≤ u64_max
    → finalize_state s.authorized_voter.voter clock slot s
      ≡ (ok tt, paid (latency_to_credits (clock.slot - slot)) s)
unfolding finalize_state earn saturating_add
finalize_state_pays clock slot s he fits = ground (arith, saturating_sub_eq clock.slot slot)

-- Sent `k` times by the authorized voter in the recorded epoch, a finalization is accepted and paid `k` times, as long as
-- the credits fit a u64.
pub finalize_times_pays :
    (k : ℕ) (clock : Clock) (slot : Slot) (s : VoteState)
    → s.epoch_credits.epoch ≡ clock.epoch
    → s.epoch_credits.credits + k * latency_to_credits (clock.slot - slot) ≤ u64_max
    → finalize_times k s.authorized_voter.voter clock slot s
      ≡ (ok tt, paid (k * latency_to_credits (clock.slot - slot)) s)
unfolding finalize_times
finalize_times_pays zero clock slot s he fits = ground arith
finalize_times_pays (suc k) clock slot s he fits =
    let n = latency_to_credits (clock.slot - slot) in
    ground (
      arith,
      finalize_state_pays clock slot s he (grind arith),
      finalize_times_pays k clock slot (paid n s) he (grind arith),
    )
