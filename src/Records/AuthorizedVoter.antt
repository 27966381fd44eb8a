-- ===== src/Records/AuthorizedVoter.antt =====
-- `AuthorizedVoter` of program/src/accounting.rs: the signer for vote instructions.
use alpenglow_vote.Base.{ℕ, ◌<◌, ◌^◌}
use alpenglow_vote.Word.{IsU64}

pub record AuthorizedVoter : Type 0 where
  pub epoch : ℕ
  pub voter : ℕ

abbrev pub new : ℕ → ℕ → AuthorizedVoter
new epoch voter = record { epoch = epoch; voter = voter }

abbrev pub default : AuthorizedVoter
default = record { epoch = 0; voter = 0 }

abbrev pub set_epoch : ℕ → AuthorizedVoter → AuthorizedVoter
set_epoch epoch av = record av { epoch = epoch }

abbrev pub set_voter : ℕ → AuthorizedVoter → AuthorizedVoter
set_voter voter av = record av { voter = voter }

pub record IsInRange (av : AuthorizedVoter) : Type 0 where
  pub epoch_u64 : IsU64 av.epoch
  pub voter_bytes : av.voter < 2 ^ 256
