-- ===== src/Examples/Witnesses.antt =====
-- Theorems on the handlers of program/src/accounting.rs, applied to the sample accounts.
use alpenglow_vote.Base.{ℕ, ◌*◌, ◌≤◌, ◌<◌, ◌≡◌, ◌⊎◌, refl, arith, true, some, ◌↔◌}
use alpenglow_vote.Error.{account_borrow_failed}
use alpenglow_vote.Exec.{ok, err, after}
use alpenglow_vote.Records.AuthorizedVoter
use alpenglow_vote.InstructionData.{voter, withdrawer}
use alpenglow_vote.State.{VoteState, get_authorized_voter}
use alpenglow_vote.Platform.{Clock}
use alpenglow_vote.Accounting.{
  withdraw, authorize_state, update_commission_state, is_commission_update_allowed,
}
use alpenglow_vote.Accounting.Withdraw.{withdraw_all_fails}
use alpenglow_vote.Accounting.Authority.{
  authorize_state_iff, get_authorized_voter-authorize, authorized,
}
use alpenglow_vote.Accounting.Commission.{
  is_commission_update_allowed_iff, update_commission_state_iff,
}
use alpenglow_vote.Examples.Sample.{sample}
use alpenglow_vote.Examples.Accounts.{
  voting, clock, schedule, rent, store, store-IsIdle, store-Holds,
}

-- withdrawals from account 0 with 1000 lamports

abbrev voting_cell : ℕ
voting_cell = 0

abbrev much_later : Clock
much_later = record { slot = 600; epoch = 10; leader_schedule_epoch = 11 }

-- five epochs after its last vote the account cannot be closed
withdraw_all_fails_example :
    (withdraw sample 0 4 1000 7 rent much_later store).0 ≡ err account_borrow_failed
withdraw_all_fails_example =
    withdraw_all_fails sample 0 4 1000 7 rent much_later voting store store-Holds (store-IsIdle 4)
      refl refl

-- authorities

authorize_state_iff_example :
    let (r, t) = authorize_state 8 withdrawer 7 clock voting in
    ((r ≡ ok tt) ↔ (voting.authorized_withdrawer ≡ 7))
    × (t ≡ after r voting (authorized 8 withdrawer clock voting))
authorize_state_iff_example = authorize_state_iff 8 withdrawer 7 clock voting

abbrev handed : VoteState
handed = record voting { next_authorized_voter = some (AuthorizedVoter.new 7 8) }

hand_over : authorize_state 8 voter 9 clock voting ≡ (ok tt, handed)
unfolding authorize_state
hand_over = refl

get_authorized_voter-authorize_example : get_authorized_voter handed 6 ≡ some 9
get_authorized_voter-authorize_example =
    get_authorized_voter-authorize 8 9 clock voting handed 6 hand_over

-- commissions: slot 100 is 40 slots into an epoch of 60

is_commission_update_allowed_iff_example :
    (is_commission_update_allowed 100 schedule ≡ true) ↔ (40 * 2 ≤ 60)
is_commission_update_allowed_iff_example =
    is_commission_update_allowed_iff 100 schedule (omega arith) (omega arith)

update_commission_state_iff_example :
    let (r, t) = update_commission_state 12 7 schedule clock voting in
    ((r ≡ ok tt) ↔ (
      (voting.authorized_withdrawer ≡ 7)
      × ((voting.commission < 12) ⊎ (is_commission_update_allowed 100 schedule ≡ true))))
    × (t ≡ after r voting (record voting { commission = 12 }))
update_commission_state_iff_example = update_commission_state_iff 12 7 schedule clock voting
