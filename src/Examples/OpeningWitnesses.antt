-- ===== src/Examples/OpeningWitnesses.antt =====
-- The theorem on a validator's first instructions, program/src/processor.rs, at concrete accounts.
use alpenglow_vote.Base.{◌≡◌, ◌∷◌, [], List, refl, arith}
use alpenglow_vote.Exec.{ok, ◌>>◌}
use alpenglow_vote.InstructionData.{InitializeAccountInstructionData}
use alpenglow_vote.State.{new, default}
use alpenglow_vote.Account.{Store}
use alpenglow_vote.Account.Laws.{Holds}
use alpenglow_vote.Vote
use alpenglow_vote.Processor.Voting.{Ballot, all_credited, cast_all}
use alpenglow_vote.Processor.Opening.{open_account, open_account-cast_all}
use alpenglow_vote.Examples.Sample.{sample, u64_size}
use alpenglow_vote.Examples.Accounts.{
  vote_account, voter_account, node_account, clock, rent, hashes, schedule, sysvars, store_of,
}
use alpenglow_vote.Examples.ProcessorWitnesses.{vote, notarization_size}
use alpenglow_vote.Examples.RequestWitnesses.{sample-AreSmall}

abbrev d : InitializeAccountInstructionData
d = record {
  node_pubkey = 5;
  authorized_voter = 9;
  authorized_withdrawer = 7;
  commission = 10;
  bls_pubkey = 123;
}

-- an account of zeros
abbrev blank : Store
blank = store_of default

blank-Holds : Holds sample 0 default blank
unfolding sample
blank-Holds = record {
  idle = record { lamports_free = refl; contents_free = refl };
  stored = refl;
  in_range = omega arith;
}

-- a finalization of slot 97 that lands in slot 100
abbrev ballots : List Ballot
ballots =
    record { vote = Vote.finalize vote; sysvars = sysvars; clock = clock; hashes = hashes } ∷ []

open_account-cast_all_example :
    (((open_account sample sysvars vote_account node_account d
          >> cast_all sample vote_account voter_account ballots)
        blank).0
      ≡ ok tt)
    × Holds sample 0
        (all_credited ballots (new d 5))
        ((open_account sample sysvars vote_account node_account d
            >> cast_all sample vote_account voter_account ballots)
          blank).1
unfolding sample
open_account-cast_all_example =
    open_account-cast_all sample sysvars rent clock schedule vote_account node_account voter_account
      d sample-AreSmall
      (record {
        owned = refl;
        signs = refl;
        notarization_small = notarization_size;
        u64_small = u64_size;
      })
      refl refl refl (omega arith) (omega arith) refl refl default blank blank-Holds refl refl
      ballots refl
      (
        record {
          clock_there = refl;
          hashes_there = refl;
          clock_u64 = omega arith;
          is_vote = omega arith;
          is_current = tt;
        },
        tt,
      )
