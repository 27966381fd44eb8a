-- ===== src/Accounting/Withdraw.antt =====
-- `withdraw` of program/src/accounting.rs on the accounts: when it pays, what it moves, and the
-- withdrawal of the whole balance.
use alpenglow_vote.Base.{ℕ, ◌+◌, ◌-◌, ◌≤◌, ◌<◌, ◌≡◌, ◌≢◌, ◌↔◌, arith, ltb, ◌==◌, if◌then◌else◌}
use alpenglow_vote.Word.{u64_max}
use alpenglow_vote.Error.{account_borrow_failed, from_vote_error, active_vote_account_close}
use alpenglow_vote.Exec.{ok, err}
use alpenglow_vote.Records.{Pubkey}
use alpenglow_vote.State.{VoteState}
use alpenglow_vote.Platform.{Platform, Clock, Rent}
use alpenglow_vote.Account.{Store}
use alpenglow_vote.Account.Laws.{IsIdle, Holds}
use alpenglow_vote.Accounting.{withdraw}

module _ (P : Platform) (i j lamports : ℕ) (by : Pubkey) (rent : Rent) (clock : Clock)
    (s : VoteState) (st : Store) (h : Holds P i s st) (hj : IsIdle j st) where
  open P use {pod_vote_state}

  -- Let the vote account hold a vote state, and nothing borrow it or the recipient. A withdrawal
  -- is paid exactly when the withdrawer signs, something is left and that is exempt
  -- from rent, the recipient is another account, and its balance stays a u64.
  pub withdraw_ok_iff : ((withdraw P i j lamports by rent clock st).0 ≡ ok tt) ↔ (
      (s.authorized_withdrawer ≡ by)
      × (lamports < (st i).lamports)
      × (rent.minimum_balance pod_vote_state.size ≤ (st i).lamports - lamports)
      × (i ≢ j)
      × ((st j).lamports + lamports ≤ u64_max))
  unfolding withdraw
  withdraw_ok_iff =
      ground (arith, pod_vote_state.length_law s, pod_vote_state.cast_law s h.in_range)

  -- From a vote account at rest to an account at rest, a paid withdrawal moves the lamports from the vote account to the recipient, and no other
  -- account, no data and no borrow changes.
  pub withdraw_moves :
      (withdraw P i j lamports by rent clock st).0 ≡ ok tt
      → (k : ℕ)
      → (withdraw P i j lamports by rent clock st).1 k ≡ (
          if i == k
          then record (st k) { lamports = (st k).lamports - lamports }
          else if j == k
          then record (st k) { lamports = (st k).lamports + lamports }
          else st k)
  unfolding withdraw
  withdraw_moves paid k =
      ground (arith, pod_vote_state.length_law s, pod_vote_state.cast_law s h.in_range)

  -- However a withdrawal from a vote account at rest to an account at rest ends, the data of every account is as before, and so are
  -- the borrows.
  pub withdraw_keeps :
      (k : ℕ)
      → let c = (withdraw P i j lamports by rent clock st).1 k in
        (c.contents ≡ (st k).contents)
        × (c.contents_borrow ≡ (st k).contents_borrow)
        × (c.lamports_borrow ≡ (st k).lamports_borrow)
  unfolding withdraw
  withdraw_keeps k =
      ground (arith, pod_vote_state.length_law s, pod_vote_state.cast_law s h.in_range)

  -- From a vote account at rest to an account at rest, the withdrawer cannot take out the whole balance and so close the vote account: within two epochs
  -- of its last credits it is refused as active, and later the data cannot be cleared, since it is
  -- still borrowed.
  pub withdraw_all_fails :
      s.authorized_withdrawer ≡ by
      → (st i).lamports ≡ lamports
      → (withdraw P i j lamports by rent clock st).0
        ≡ err (
            if ltb (clock.epoch - s.epoch_credits.epoch) 2
            then from_vote_error active_vote_account_close
            else account_borrow_failed)
  unfolding withdraw
  withdraw_all_fails hb hl =
      ground (arith, pod_vote_state.length_law s, pod_vote_state.cast_law s h.in_range)
