-- ===== src/Records/EpochCredit.antt =====
-- `EpochCredit` of program/src/accounting.rs: the credits of an epoch.
use alpenglow_vote.Base.{ℕ}
use alpenglow_vote.Word.{IsU64}

pub record EpochCredit : Type 0 where
  pub epoch : ℕ
  pub credits : ℕ
  pub prev_credits : ℕ

abbrev pub new : ℕ → ℕ → ℕ → EpochCredit
new epoch credits prev_credits = record {
  epoch = epoch;
  credits = credits;
  prev_credits = prev_credits;
}

abbrev pub default : EpochCredit
default = record { epoch = 0; credits = 0; prev_credits = 0 }

abbrev pub set_epoch : ℕ → EpochCredit → EpochCredit
set_epoch epoch c = record c { epoch = epoch }

abbrev pub set_credits : ℕ → EpochCredit → EpochCredit
set_credits credits c = record c { credits = credits }

abbrev pub set_prev_credits : ℕ → EpochCredit → EpochCredit
set_prev_credits prev_credits c = record c { prev_credits = prev_credits }

pub record IsInRange (c : EpochCredit) : Type 0 where
  pub epoch_u64 : IsU64 c.epoch
  pub credits_u64 : IsU64 c.credits
  pub prev_credits_u64 : IsU64 c.prev_credits
