-- ===== src/Records/Getters.antt =====
-- The getters of `AuthorizedVoter` and `EpochCredit`, program/src/accounting.rs.
use alpenglow_vote.Base.{ℕ}
use alpenglow_vote.Records.{Epoch, Pubkey}
use alpenglow_vote.Records.AuthorizedVoter.{AuthorizedVoter}
use alpenglow_vote.Records.EpochCredit.{EpochCredit}

abbrev pub authorized_voter_epoch : AuthorizedVoter → Epoch
authorized_voter_epoch av = av.epoch

abbrev pub authorized_voter_voter : AuthorizedVoter → Pubkey
authorized_voter_voter av = av.voter

abbrev pub epoch_credit_epoch : EpochCredit → Epoch
epoch_credit_epoch c = c.epoch

abbrev pub epoch_credit_credits : EpochCredit → ℕ
epoch_credit_credits c = c.credits

abbrev pub epoch_credit_prev_credits : EpochCredit → ℕ
epoch_credit_prev_credits c = c.prev_credits
