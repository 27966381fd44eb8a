-- ===== src/Examples/Accounts.antt =====
-- A vote account with its validator, voter and withdrawer, and the sysvars of one slot.
use alpenglow_vote.Base.{ℕ, ◌+◌, [], refl, arith, true, false, none, some, leb, ◌==◌, if◌then◌else◌}
use alpenglow_vote.Exec.{ok}
use alpenglow_vote.Records.AuthorizedVoter
use alpenglow_vote.Records.EpochCredit
use alpenglow_vote.State.{VoteState}
use alpenglow_vote.Platform.{AccountInfo, Sysvars, Clock, EpochSchedule, Rent, SlotHashes}
use alpenglow_vote.Account.{Store, Cells, free}
use alpenglow_vote.Account.Laws.{Holds, IsIdle}
use alpenglow_vote.Examples.Sample.{sample}

abbrev pub voting : VoteState
voting = record {
  version = 1;
  node_pubkey = 5;
  authorized_withdrawer = 7;
  commission = 10;
  authorized_voter = AuthorizedVoter.new 3 9;
  next_authorized_voter = none;
  epoch_credits = EpochCredit.new 5 30 20;
  replayed_slot = 0;
  replayed_bank_hash = 0;
  bls_pubkey = 123;
}

abbrev pub vote_account : AccountInfo
vote_account = record { key = 1; owner = 77; is_signer = false; cell = 0 }

abbrev pub voter_account : AccountInfo
voter_account = record { key = 9; owner = 0; is_signer = true; cell = 1 }

abbrev pub withdrawer_account : AccountInfo
withdrawer_account = record { key = 7; owner = 0; is_signer = true; cell = 2 }

abbrev pub node_account : AccountInfo
node_account = record { key = 5; owner = 0; is_signer = true; cell = 3 }

abbrev pub recipient_account : AccountInfo
recipient_account = record { key = 4; owner = 0; is_signer = false; cell = 4 }

abbrev pub clock : Clock
clock = record { slot = 100; epoch = 5; leader_schedule_epoch = 6 }

abbrev pub schedule : EpochSchedule
schedule = record { slots_per_epoch = 60; first_normal_slot = 0 }

abbrev pub rent : Rent
rent = record { minimum_balance = λ n. n + 100; is_exempt = λ balance n. leb (n + 100) balance }

abbrev pub hashes : SlotHashes
hashes = record { get = λ slot. if slot == 97 then ok (some 11) else ok none }

abbrev pub sysvars : Sysvars
sysvars = record {
  rent = ok rent;
  clock = ok clock;
  epoch_schedule = ok schedule;
  slot_hashes = ok hashes;
}

abbrev pub cells_of : VoteState → Cells
cells_of s = record {
  lamports = 1000;
  lamports_borrow = free;
  contents = sample.pod_vote_state.bytes_of s;
  contents_borrow = free;
}

abbrev pub wallet : Cells
wallet = record { lamports = 50; lamports_borrow = free; contents = []; contents_borrow = free }

abbrev pub store_of : VoteState → Store
store_of s j = if j == 0 then cells_of s else wallet

abbrev pub store : Store
store = store_of voting

pub store-IsIdle : (j : ℕ) → IsIdle j store
store-IsIdle j = ground arith

pub store-Holds : Holds sample 0 voting store
unfolding sample
store-Holds = record { idle = store-IsIdle 0; stored = refl; in_range = omega arith }
