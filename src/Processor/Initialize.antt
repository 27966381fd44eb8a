-- ===== src/Processor/Initialize.antt =====
-- `initialize_account` of program/src/processor.rs on the accounts.
use alpenglow_vote.Base.{ℕ, ◌≡◌, ◌↔◌, arith}
use alpenglow_vote.Exec.{ok, after}
use alpenglow_vote.InstructionData.{InitializeAccountInstructionData}
use alpenglow_vote.State.{VoteState, new, is_initialized}
use alpenglow_vote.Platform.{Platform, Clock}
use alpenglow_vote.Account.{Store}
use alpenglow_vote.Account.Laws.{Holds, write}
use alpenglow_vote.Processor.{initialize_account}

module _ (P : Platform) (i : ℕ) (d : InitializeAccountInstructionData) (clock : Clock)
    (s : VoteState) (st : Store) (h : Holds P i s st) where
  open P use {pod_vote_state}

  -- On an account at rest that holds a vote state, `initialize_account` succeeds exactly if that has
  -- version 0. It then replaces that state
  -- by the new one, and otherwise changes no account.
  pub initialize_account_iff :
      let (r, st') = initialize_account P i d clock st in
      ((r ≡ ok tt) ↔ (s.version ≡ 0))
      × ((k : ℕ) → st' k ≡ after r (st k) (write P i (new d clock.epoch) st k))
  unfolding initialize_account is_initialized
  initialize_account_iff = (
    ground (arith, pod_vote_state.length_law s, pod_vote_state.cast_law s h.in_range),
    λ k. ground (arith, pod_vote_state.length_law s, pod_vote_state.cast_law s h.in_range),
  )
