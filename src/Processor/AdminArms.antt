-- ===== src/Processor/AdminArms.antt =====
-- The arms of program/src/processor.rs for initializing, withdrawing, the validator's identity and
-- the commission meet the contract.
use alpenglow_vote.Base.{ℕ, ◌≡◌, ◌∷◌, [], List, inr, refl, sym, ap, ◌∙◌, arith, not, ◌/=◌, false}
use mathlib.Core.Path.{subst}
use alpenglow_vote.Error.{
  from_vote_error, account_borrow_failed, missing_epoch_schedule_sysvar, insufficient_funds,
  missing_required_signature,
}
use alpenglow_vote.Exec.{Outcome, ok, err, panic, after}
use alpenglow_vote.State.{VoteState, new}
use alpenglow_vote.State.Ranges.{IsVoteState}
use alpenglow_vote.Platform.{AccountInfo}
use alpenglow_vote.Account.{Store, account_lamports, account_data_len}
use alpenglow_vote.Account.Laws.{write, account_lamports-eq, account_data_len-eq}
use alpenglow_vote.Spec.{Signs, Permitted, initialized, new_identity, new_commission, withdrawn}
use alpenglow_vote.Spec.Ranges.{new-IsVoteState}
use alpenglow_vote.Instruction.{decode_instruction_data}
use alpenglow_vote.Instruction.Decode.{decode_instruction_data-range}
use alpenglow_vote.Accounting.{
  withdraw, update_validator_identity, update_validator_identity_state, update_commission,
  update_commission_state,
}
use alpenglow_vote.Accounting.Authority.{update_validator_identity_state_iff}
use alpenglow_vote.Accounting.Commission.{update_commission_state_iff}
use alpenglow_vote.Accounting.Withdraw.{withdraw_ok_iff, withdraw_keeps}
use alpenglow_vote.VoteProcessor.{map_err}
use alpenglow_vote.Processor.{
  initialize_account, process_initialize_account, process_withdraw,
  process_update_validator_identity, process_update_commission,
}
use alpenglow_vote.Processor.Initialize.{initialize_account_iff}
use alpenglow_vote.Processor.Refines.{
  Scene, IsRefining, lift-refines, fail_if-refines, read-refines, next_signer-refines,
  write-refines,
}

map_err_ok :
    {A : Type 0} (r : Outcome A) (a : A)
    → map_err (from_vote_error missing_epoch_schedule_sysvar) r ≡ ok a
    → r ≡ ok a
map_err_ok (ok b) a e = e
map_err_ok (err _) a e = cc
map_err_ok panic a e = cc

eq_of_/= : (a b : ℕ) → (a /= b) ≡ false → a ≡ b
eq_of_/= a b h = ground arith

module _ (x : Scene) where
  open x use {P, sysvars, account, iter, input, s, st, holds, idle, is_input}
  open P use {
    bls_pubkey_bound, pod_u8, pod_u64, pod_initialize, pod_vote_state, pod_cast_error,
    next_account_info, next_law, no_account_law,
  }

  pub process_update_validator_identity-refines :
      IsRefining x (process_update_validator_identity P sysvars account iter input st)
  unfolding process_update_validator_identity update_validator_identity
  process_update_validator_identity-refines = next_signer-refines x iter _ λ node rest n.
      next_signer-refines x rest _ λ by _ n'.
        let (accepts, left) = update_validator_identity_state_iff node by s in
        write-refines x (err account_borrow_failed) (err pod_cast_error)
          (update_validator_identity_state node by) (record s { node_pubkey = node }) left
          λ e. (
            new_identity node
                (inr (subst (λ k. Signs k iter) (sym (accepts.0 e)) (n.later by n'.signs)))
                (inr n.signs) refl,
            ground (arith, holds.in_range, n.key is_input.keys.1),
          )

  pub process_update_commission-refines :
      IsRefining x (process_update_commission P sysvars account iter input st)
  unfolding process_update_commission update_commission
  process_update_commission-refines =
      lift-refines x
        (map_err (from_vote_error missing_epoch_schedule_sysvar) sysvars.epoch_schedule) _
        λ schedule hs. lift-refines x sysvars.clock _ λ clock hc.
          next_signer-refines x iter _ λ by rest n.
            lift-refines x (decode_instruction_data P pod_u8 input) _ λ c hd.
              let (accepts, left) = update_commission_state_iff c by schedule clock s in
              write-refines x (err account_borrow_failed) (err pod_cast_error)
                (update_commission_state c by schedule clock) (record s { commission = c }) left
                λ e. (
                  new_commission c schedule clock
                      (inr (subst (λ k. Signs k iter) (sym (accepts.0 e).0) n.signs)) hc
                      (map_err_ok sysvars.epoch_schedule schedule hs) (accepts.0 e).1 refl,
                  ground (
                    arith,
                    holds.in_range,
                    decode_instruction_data-range P pod_u8 input c is_input.bytes hd,
                  ),
                )

  kept-refines :
      (run : Outcome (Unit {0}) × Store)
      → ((k : ℕ)
          → ((run.1 k).contents ≡ (st k).contents)
            × ((run.1 k).contents_borrow ≡ (st k).contents_borrow)
            × ((run.1 k).lamports_borrow ≡ (st k).lamports_borrow))
      → (run.0 ≡ ok tt → Permitted P sysvars (account ∷ iter) s s)
      → IsRefining x run
  kept-refines (ok tt, st') keeps permitted =
      let (contents, data_flag, lamports_flag) = keeps account.cell in
      (
        (
          s,
          permitted refl,
          record {
            idle = record {
              lamports_free = lamports_flag ∙ holds.idle.lamports_free;
              contents_free = data_flag ∙ holds.idle.contents_free;
            };
            stored = contents ∙ holds.stored;
            in_range = holds.in_range;
          },
        ),
        λ j _. (keeps j).0,
      )
  kept-refines (err e, st') keeps permitted = λ j. (keeps j).0
  kept-refines (panic, st') keeps permitted = λ j. (keeps j).0

  pub next_account_ok :
      (front rest : List AccountInfo) (a : AccountInfo)
      → next_account_info front ≡ ok (a, rest)
      → front ≡ a ∷ rest
  next_account_ok [] rest a e = cc no_account_law
  next_account_ok (b ∷ others) rest a e = ground (arith, next_law b others)

  pub process_withdraw-refines : IsRefining x (process_withdraw P sysvars account iter input st)
  unfolding process_withdraw
  process_withdraw-refines = lift-refines x (next_account_info iter) _ λ (recipient, iter') hr.
      lift-refines x sysvars.rent _ λ rent _. lift-refines x sysvars.clock _ λ clock hc.
        next_signer-refines x iter' _ λ by rest n.
          lift-refines x (decode_instruction_data P pod_u64 input) _ λ lamports _.
            let i = account.cell in
            let j = recipient.cell in
            kept-refines (withdraw P i j lamports by rent clock st)
              (withdraw_keeps P i j lamports by rent clock s st holds (idle j))
              λ e.
                let paid = (withdraw_ok_iff P i j lamports by rent clock s st holds (idle j)).0 e in
                let signs : Signs by iter =
                  rw (next_account_ok iter iter' recipient hr) (inr n.signs) in
                withdrawn (inr (subst (λ k. Signs k iter) (sym paid.0) signs)) refl

  placed-refines :
      (run : Outcome (Unit {0}) × Store) (t : VoteState)
      → ((k : ℕ) → run.1 k ≡ after run.0 (st k) (write P account.cell t st k))
      → (run.0 ≡ ok tt → Permitted P sysvars (account ∷ iter) s t × IsVoteState bls_pubkey_bound t)
      → IsRefining x run
  placed-refines (ok tt, st') t placed permitted =
      let here = placed account.cell in
      (
        (
          t,
          (permitted refl).0,
          record {
            idle = record {
              lamports_free = ground (arith, here, holds.idle);
              contents_free = ground (arith, here, holds.idle);
            };
            stored = ground (arith, here);
            in_range = (permitted refl).1;
          },
        ),
        λ j ne. ground (arith, placed j),
      )
  placed-refines (err e, st') t placed permitted = λ j. ap (λ c. c.contents) (placed j)
  placed-refines (panic, st') t placed permitted = λ j. ap (λ c. c.contents) (placed j)

  pub process_initialize_account-refines :
      IsRefining x (process_initialize_account P sysvars account iter input st)
  unfolding process_initialize_account
  process_initialize_account-refines = lift-refines x sysvars.rent _ λ rent _.
      let balance = account_lamports-eq account.cell st holds.idle in
      let size = account_data_len-eq account.cell st holds.idle in
      read-refines x (account_lamports account.cell) _ _ balance λ lamports _.
        read-refines x (account_data_len account.cell) _ _ size λ data_len _.
          fail_if-refines x (not (rent.is_exempt lamports data_len)) insufficient_funds _ λ _.
            lift-refines x sysvars.clock _ λ clock hc. next_signer-refines x iter _ λ node rest n.
              lift-refines x (decode_instruction_data P pod_initialize input) _ λ d hd.
                fail_if-refines x (d.node_pubkey /= node) missing_required_signature _ λ same.
                  let (accepts, placed) =
                    initialize_account_iff P account.cell d clock s st holds in
                  placed-refines (initialize_account P account.cell d clock st) (new d clock.epoch)
                    placed
                    λ e. (
                      initialized d clock (accepts.0 e) hc
                          (inr (
                            subst (λ k. Signs k iter) (sym (eq_of_/= d.node_pubkey node same))
                              n.signs))
                          refl,
                      new-IsVoteState bls_pubkey_bound d clock.epoch
                          (decode_instruction_data-range P pod_initialize input d is_input.bytes hd)
                          (is_input.clock_u64 clock hc),
                    )
