-- ===== src/Spec/Growth.antt =====
-- The vote credits over a history of permitted steps, with the saturating counters of
-- program/src/vote_processor.rs.
use alpenglow_vote.Base.{ℕ, ◌<◌, ◌≤◌, arith, List}
use alpenglow_vote.Word.{u64_max, saturating_add}
use alpenglow_vote.Records.EpochCredit.{EpochCredit}
use alpenglow_vote.State.{VoteState}
use alpenglow_vote.Platform.{Platform, AccountInfo, Sysvars}
use alpenglow_vote.VoteProcessor.{earn}
use alpenglow_vote.Spec.{
  Permitted, initialized, earned, next_voter, new_withdrawer, new_identity, new_commission,
  withdrawn,
}
use alpenglow_vote.Spec.History.{History, History-SameFixed}

-- Of what was recorded in `c` nothing is lost in `d`, and in `d` the difference of the two counters
-- is one of u64s.
pub record IsGrown (c d : EpochCredit) : Type 0 where
  pub credits_grow : c.credits ≤ d.credits
  pub prev_credits_grow : c.prev_credits ≤ d.prev_credits
  pub ordered : d.prev_credits ≤ d.credits
  pub credits_u64 : d.credits ≤ u64_max

earn-IsGrown : (epoch n : ℕ) (c d : EpochCredit) → IsGrown c d → IsGrown c (earn epoch n d)
unfolding earn saturating_add
earn-IsGrown epoch n c d h =
    ground (arith, h.credits_grow, h.prev_credits_grow, h.ordered, h.credits_u64)

module _ (P : Platform) where
  Permitted-IsGrown :
      {sysvars : Sysvars} {accounts : List AccountInfo} {s t : VoteState} (c : EpochCredit)
      → 0 < s.version
      → IsGrown c s.epoch_credits
      → Permitted P sysvars accounts s t
      → IsGrown c t.epoch_credits
  Permitted-IsGrown c live h (initialized d clock fresh _ _ _) = absurd (omega arith)
  Permitted-IsGrown {s = s} c live h (earned n clock _ _ _ _ e) =
      rw e (earn-IsGrown clock.epoch n c s.epoch_credits h)
  Permitted-IsGrown c live h (next_voter by key clock _ _ _ e) = rw e h
  Permitted-IsGrown c live h (new_withdrawer key _ e) = rw e h
  Permitted-IsGrown c live h (new_identity node _ _ e) = rw e h
  Permitted-IsGrown c live h (new_commission commission schedule clock _ _ _ _ e) = rw e h
  Permitted-IsGrown c live h (withdrawn _ e) = rw e h

  pub History-IsGrown :
      {s t : VoteState}
      → 0 < s.version
      → s.epoch_credits.prev_credits ≤ s.epoch_credits.credits
      → s.epoch_credits.credits ≤ u64_max
      → History P s t
      → IsGrown s.epoch_credits t.epoch_credits
  History-IsGrown live h hc History.here = record {
    credits_grow = omega arith;
    prev_credits_grow = omega arith;
    ordered = h;
    credits_u64 = hc;
  }
  History-IsGrown {s = s} live h hc (History.next sysvars accounts past step) =
      let fixed = History-SameFixed P live past in
      Permitted-IsGrown s.epoch_credits (omega (arith, fixed.version))
        (History-IsGrown live h hc past) step
