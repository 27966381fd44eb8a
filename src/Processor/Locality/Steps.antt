-- ===== src/Processor/Locality/Steps.antt =====
-- The accounts that the steps of the arms of program/src/processor.rs read and write.
use alpenglow_vote.Base.{ℕ, ◌≡◌, ◌∙◌, sym, List, [], ◌∷◌, All, ◌/=◌}
use mathlib.Core.Path.{subst}
use alpenglow_vote.Error.{
  missing_required_signature, invalid_account_data, account_already_initialized,
}
use alpenglow_vote.Exec.{ok, Exec, ◌>>=◌}
use alpenglow_vote.Records.{Pubkey}
use alpenglow_vote.InstructionData.{InitializeAccountInstructionData}
use alpenglow_vote.Platform.{Platform, AccountInfo, Clock}
use alpenglow_vote.State.{new, is_initialized}
use alpenglow_vote.Account.{Store, cast}
use alpenglow_vote.Account.Local.{
  IsLocal, lift-IsLocal, ok_or-IsLocal, fail_if-IsLocal, bind-IsLocal, lift-bind-IsLocal,
  fail_if-bind-IsLocal,
}
use alpenglow_vote.Account.Local.Borrows.{borrow_data-IsLocal, account_data_len-IsLocal}
use alpenglow_vote.Accounting.Local.{set_vote_account_state-IsLocal}
use alpenglow_vote.Instruction.{VoteInstruction}
use alpenglow_vote.Processor.Footprint.{footprint_of, paid_by}
use alpenglow_vote.Processor.Safety.{ok_injective}
use alpenglow_vote.Processor.{initialize_account, next_signer}

module _ (P : Platform) (C : ℕ → Type 0) where
  next_signer-IsLocal : (iter : List AccountInfo) → IsLocal C (next_signer P iter)
  unfolding next_signer
  next_signer-IsLocal iter =
      bind-IsLocal C _ _ (lift-IsLocal C (P.next_account_info iter)) λ (a, rest).
        bind-IsLocal C _ _ (ok_or-IsLocal C (P.signer_key a) missing_required_signature)
          λ key. lift-IsLocal C (ok (key, rest))

  pub signer_then :
      (iter : List AccountInfo) (f : Pubkey × List AccountInfo → Exec Store (Unit {0}))
      → ((k : Pubkey) (rest : List AccountInfo) → IsLocal C (f (k, rest)))
      → IsLocal C (next_signer P iter >>= f)
  signer_then iter f hf =
      bind-IsLocal C (next_signer P iter) f (next_signer-IsLocal iter) λ (k, rest). hf k rest

  pub initialize_account-IsLocal :
      (i : ℕ)
      → C i
      → (d : InitializeAccountInstructionData) (clock : Clock)
      → IsLocal C (initialize_account P i d clock)
  unfolding initialize_account
  initialize_account-IsLocal i own d clock =
      bind-IsLocal C _ _ (account_data_len-IsLocal C i own) λ n.
        fail_if-bind-IsLocal C (n /= P.pod_vote_state.size) invalid_account_data _ (
          bind-IsLocal C _ _
            (borrow_data-IsLocal C i own _ λ b.
              lift-bind-IsLocal C (cast P b) _
                λ s _. fail_if-IsLocal C (is_initialized s) account_already_initialized)
            λ _. set_vote_account_state-IsLocal P C i own (new d clock.epoch))

  -- The vote account of an instruction, and the recipient of a withdrawal, are in its footprint.
  pub taken_first :
      (instruction : VoteInstruction) (accounts iter : List AccountInfo) (a : AccountInfo)
      → All C (footprint_of (ok instruction) accounts)
      → P.next_account_info accounts ≡ ok (a, iter)
      → C a.cell × All C (paid_by instruction iter)
  taken_first instruction [] iter a h e = cc (P.no_account_law, e)
  taken_first instruction (b ∷ others) iter a h e =
      let same : (b, others) ≡ (a, iter) = ok_injective _ _ (sym (P.next_law b others) ∙ e) in
      subst (λ p. C p.0.cell × All C (paid_by instruction p.1)) same h

  pub taken_recipient :
      (iter rest : List AccountInfo) (a : AccountInfo)
      → All C (paid_by VoteInstruction.withdraw iter)
      → P.next_account_info iter ≡ ok (a, rest)
      → C a.cell
  taken_recipient [] rest a h e = cc (P.no_account_law, e)
  taken_recipient (b ∷ others) rest a (h, _) e =
      let same : (b, others) ≡ (a, rest) = ok_injective _ _ (sym (P.next_law b others) ∙ e) in
      subst (λ p. C p.0.cell) same h
