-- ===== src/Processor/Idle.antt =====
-- The borrows that a run of `process_instruction`, program/src/processor.rs, leaves.
use alpenglow_vote.Base.{ℕ, ◌≡◌, ◌∷◌, sym, ◌∙◌, ◌/=◌}
use mathlib.Core.Path.{subst}
use alpenglow_vote.Error.{invalid_account_owner}
use alpenglow_vote.Records.{Pubkey}
use alpenglow_vote.Account.{Store}
use alpenglow_vote.Account.Laws.{IsIdle}
use alpenglow_vote.Accounting.Withdraw.{withdraw_keeps}
use alpenglow_vote.Instruction.{VoteInstruction, decode_instruction_type, decode_instruction_data}
use alpenglow_vote.Processor.{dispatch, process_instruction, process_withdraw}
use alpenglow_vote.Processor.Lamports.{dispatch-KeepsRest}
use alpenglow_vote.Processor.Refines.{Scene}
use alpenglow_vote.Processor.Safety.{run, ok_injective}
use alpenglow_vote.Processor.Success.{Leaves, lift-Leaves, fail_if-Leaves, next_signer-Leaves}
use alpenglow_vote.Processor.Transfers.{VoteInstruction-discrete}

-- Nothing is borrowed.
abbrev pub AllIdle : Store → Type 0
AllIdle st = (k : ℕ) → IsIdle k st

module _ (x : Scene) where
  open x use {P, sysvars, account, iter, input, s, st, holds, idle}
  open P use {pod_u64, next_account_info, next_law}

  process_withdraw-AllIdle : Leaves AllIdle st (process_withdraw P sysvars account iter input st)
  unfolding process_withdraw
  process_withdraw-AllIdle =
      lift-Leaves AllIdle st (next_account_info iter) _ λ (recipient, iter') _.
        lift-Leaves AllIdle st sysvars.rent _ λ rent _.
          lift-Leaves AllIdle st sysvars.clock _ λ clock _.
            next_signer-Leaves AllIdle st P iter' _ λ by rest _.
              lift-Leaves AllIdle st (decode_instruction_data P pod_u64 input) _ λ lamports _ _ k.
                let (_, contents, lamports_flag) =
                  withdraw_keeps P account.cell recipient.cell lamports by rent clock s st holds
                    (idle recipient.cell) k in
                record {
                  lamports_free = lamports_flag ∙ (idle k).lamports_free;
                  contents_free = contents ∙ (idle k).contents_free;
                }

  dispatch-AllIdle :
      (i : VoteInstruction) → Leaves AllIdle st (dispatch P i sysvars account iter input st)
  dispatch-AllIdle i = elim (VoteInstruction-discrete i VoteInstruction.withdraw) [
    | yes withdrawing ↦
        subst (λ i. Leaves AllIdle st (dispatch P i sysvars account iter input st))
          (sym withdrawing) (unfold dispatch in process_withdraw-AllIdle)
    | no ne ↦ λ _ k.
        let (_, lamports_flag, contents) =
          dispatch-KeepsRest P sysvars account iter input st i ne k in
        record {
          lamports_free = lamports_flag ∙ (idle k).lamports_free;
          contents_free = contents ∙ (idle k).contents_free;
        }
  ]

  -- An instruction that succeeds has given back all borrows.
  pub run-AllIdle : (program_id : Pubkey) → Leaves AllIdle st (run x program_id)
  unfolding process_instruction
  run-AllIdle program_id = lift-Leaves AllIdle st (decode_instruction_type input) _ λ instruction _.
      lift-Leaves AllIdle st (next_account_info (account ∷ iter)) _ λ a e.
        fail_if-Leaves AllIdle st (a.0.owner /= program_id) invalid_account_owner _ λ _.
          let first : (account, iter) ≡ a = ok_injective _ _ (sym (next_law account iter) ∙ e) in
          subst (λ b. Leaves AllIdle st (dispatch P instruction sysvars b.0 b.1 input st)) first
            (dispatch-AllIdle instruction)
