-- ===== src/Accounting/Local.antt =====
-- The accounts that the handlers of program/src/accounting.rs read and write.
use alpenglow_vote.Base.{ℕ, ltb, Bool, true, false, if◌then◌else◌, ap}
use alpenglow_vote.Error.{insufficient_funds, arithmetic_overflow}
use alpenglow_vote.Word.{checked_add, checked_sub}
use alpenglow_vote.Exec.{Exec}
use alpenglow_vote.Records.{Pubkey}
use alpenglow_vote.InstructionData.{AuthorityType}
use alpenglow_vote.State.{VoteState}
use alpenglow_vote.Platform.{Platform, Clock, EpochSchedule, Rent}
use alpenglow_vote.Account.{Store, set_vote_account_state, cast}
use alpenglow_vote.Account.Local.{
  IsLocal, lift-IsLocal, ok_or-IsLocal, fail_if-IsLocal, bind-IsLocal, gets-IsLocal, modify-IsLocal,
}
use alpenglow_vote.Account.Local.Borrows.{
  try_lamports-IsLocal, account_data_len-IsLocal, borrow_mut_data-IsLocal, borrow_data-IsLocal,
  borrow_mut_lamports-IsLocal,
}
use alpenglow_vote.Accounting.{
  authorize, update_validator_identity, update_commission, withdraw, close, move_lamports,
  keep_rent_exempt,
}

if-IsLocal :
    {A : Type 0} (C : ℕ → Type 0) (b : Bool) (m n : Exec Store A)
    → IsLocal C m
    → IsLocal C n
    → IsLocal C (if b then m else n)
if-IsLocal C true m n hm hn = hm
if-IsLocal C false m n hm hn = hn

module _ (P : Platform) (C : ℕ → Type 0) (i : ℕ) (own : C i) where
  pub authorize-IsLocal :
      (key : Pubkey) (type : AuthorityType) (by : Pubkey) (clock : Clock)
      → IsLocal C (authorize P i key type by clock)
  unfolding authorize
  authorize-IsLocal key type by clock = borrow_mut_data-IsLocal C i own _ _

  pub update_validator_identity-IsLocal :
      (node by : Pubkey) → IsLocal C (update_validator_identity P i node by)
  unfolding update_validator_identity
  update_validator_identity-IsLocal node by = borrow_mut_data-IsLocal C i own _ _

  pub update_commission-IsLocal :
      (commission : ℕ) (by : Pubkey) (schedule : EpochSchedule) (clock : Clock)
      → IsLocal C (update_commission P i commission by schedule clock)
  unfolding update_commission
  update_commission-IsLocal commission by schedule clock = borrow_mut_data-IsLocal C i own _ _

  pub set_vote_account_state-IsLocal : (s : VoteState) → IsLocal C (set_vote_account_state P i s)
  unfolding set_vote_account_state
  set_vote_account_state-IsLocal s = borrow_mut_data-IsLocal C i own _ _

  close-IsLocal : (s : VoteState) (clock : Clock) → IsLocal C (close P i s clock)
  unfolding close
  close-IsLocal s clock =
      bind-IsLocal C _ _ (fail_if-IsLocal C _ _) λ _. set_vote_account_state-IsLocal _

  keep_rent_exempt-IsLocal :
      (remaining : ℕ) (rent : Rent) → IsLocal C (keep_rent_exempt P i remaining rent)
  keep_rent_exempt-IsLocal remaining rent =
      bind-IsLocal C _ _ (account_data_len-IsLocal C i own)
        λ n. fail_if-IsLocal C (ltb remaining (rent.minimum_balance n)) insufficient_funds

  module _ (j : ℕ) (other : C j) where
    move_lamports-IsLocal : (n : ℕ) → IsLocal C (move_lamports P i j n)
    unfolding move_lamports
    move_lamports-IsLocal n = borrow_mut_lamports-IsLocal C i own _ (
        bind-IsLocal C _ _ (gets-IsLocal C _ (λ st st' h. ap (λ c. c.lamports) (h i own))) λ all.
          bind-IsLocal C _ _ (ok_or-IsLocal C (checked_sub all n) insufficient_funds) λ left.
            bind-IsLocal C _ _ (modify-IsLocal C i own (λ c. record c { lamports = left })) λ _.
              borrow_mut_lamports-IsLocal C j other _ (
                bind-IsLocal C _ _ (gets-IsLocal C _ (λ st st' h. ap (λ c. c.lamports) (h j other)))
                  λ held.
                    bind-IsLocal C _ _ (ok_or-IsLocal C (checked_add held n) arithmetic_overflow)
                      λ total. modify-IsLocal C j other (λ c. record c { lamports = total })))

    pub withdraw-IsLocal :
        (n : ℕ) (by : Pubkey) (rent : Rent) (clock : Clock)
        → IsLocal C (withdraw P i j n by rent clock)
    unfolding withdraw
    withdraw-IsLocal n by rent clock = borrow_data-IsLocal C i own _ λ b.
        bind-IsLocal C _ _ (lift-IsLocal C (cast P b)) λ s.
          bind-IsLocal C _ _ (fail_if-IsLocal C _ _) λ _.
            bind-IsLocal C _ _ (try_lamports-IsLocal C i own) λ all.
              bind-IsLocal C _ _ (ok_or-IsLocal C (checked_sub all n) insufficient_funds)
                λ remaining.
                  bind-IsLocal C _ _
                    (if-IsLocal C _ _ _ (close-IsLocal s clock)
                      (keep_rent_exempt-IsLocal remaining rent))
                    λ _. move_lamports-IsLocal n
