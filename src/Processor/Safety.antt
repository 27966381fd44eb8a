-- ===== src/Processor/Safety.antt =====
-- The whole of `process_instruction`, program/src/processor.rs, and the contract of Spec.
use alpenglow_vote.Base.{ℕ, ◌≡◌, ◌≢◌, ◌⊎◌, ◌∷◌, ◌<◌, refl, sym, ◌∙◌, ◌/=◌}
use mathlib.Core.Path.{subst}
use alpenglow_vote.Error.{invalid_account_owner}
use alpenglow_vote.Exec.{Outcome, ok, err, panic}
use alpenglow_vote.Records.{Pubkey}
use alpenglow_vote.State.{VoteState}
use alpenglow_vote.Account.{Store}
use alpenglow_vote.Account.Laws.{Holds}
use alpenglow_vote.Spec.{Permitted}
use alpenglow_vote.Spec.{Authorized}
use alpenglow_vote.Spec.History.{Permitted-Authorized}
use alpenglow_vote.Instruction.{VoteInstruction, decode_instruction_type}
use alpenglow_vote.Processor.{dispatch, process_instruction}
use alpenglow_vote.Processor.Refines.{Scene, Refines, IsRefining, lift-refines, fail_if-refines}
use alpenglow_vote.Processor.VoteArms.{
  process_notarize-refines, process_finalize-refines, process_skip-refines,
}
use alpenglow_vote.Processor.AuthorizeArms.{
  process_authorize-refines, process_authorize_checked-refines, process_authorize_with_seed-refines,
  process_authorize_checked_with_seed-refines,
}
use alpenglow_vote.Processor.AdminArms.{
  process_initialize_account-refines, process_withdraw-refines,
  process_update_validator_identity-refines, process_update_commission-refines,
}

pub ok_injective : {A : Type 0} (a b : A) → ok a ≡ ok b → a ≡ b
ok_injective a b e = cc

succeeded :
    (x : Scene) (r : Outcome (Unit {0})) (st' : Store)
    → r ≡ ok tt
    → Refines x r st'
    → ((t : VoteState) × Permitted x.P x.sysvars (x.account ∷ x.iter) x.s t
        × Holds x.P x.account.cell t st')
      × ((j : ℕ) → x.account.cell ≢ j → (st' j).contents ≡ (x.st j).contents)
succeeded x (ok tt) st' e h = h
succeeded x (err _) st' e h = cc
succeeded x panic st' e h = cc

failed :
    (x : Scene) (r : Outcome (Unit {0})) (st' : Store)
    → r ≢ ok tt
    → Refines x r st'
    → (j : ℕ) → (st' j).contents ≡ (x.st j).contents
failed x (ok tt) st' ne h = absurd (ne refl)
failed x (err _) st' ne h = h
failed x panic st' ne h = h

dispatch-refines :
    (x : Scene) (instruction : VoteInstruction)
    → IsRefining x (dispatch x.P instruction x.sysvars x.account x.iter x.input x.st)
unfolding dispatch
dispatch-refines x VoteInstruction.initialize_account = process_initialize_account-refines x
dispatch-refines x VoteInstruction.authorize = process_authorize-refines x
dispatch-refines x VoteInstruction.authorize_checked = process_authorize_checked-refines x
dispatch-refines x VoteInstruction.authorize_with_seed = process_authorize_with_seed-refines x
dispatch-refines x VoteInstruction.authorize_checked_with_seed =
    process_authorize_checked_with_seed-refines x
dispatch-refines x VoteInstruction.withdraw = process_withdraw-refines x
dispatch-refines x VoteInstruction.update_validator_identity =
    process_update_validator_identity-refines x
dispatch-refines x VoteInstruction.update_commission = process_update_commission-refines x
dispatch-refines x VoteInstruction.notarize = process_notarize-refines x
dispatch-refines x VoteInstruction.finalize = process_finalize-refines x
dispatch-refines x VoteInstruction.skip = process_skip-refines x
dispatch-refines x VoteInstruction.notarize_fallback = process_notarize-refines x
dispatch-refines x VoteInstruction.skip_fallback = process_skip-refines x

-- The run of an instruction in a scene.
abbrev pub run : Scene → Pubkey → Outcome (Unit {0}) × Store
run x program_id = process_instruction x.P x.sysvars program_id (x.account ∷ x.iter) x.input x.st

run-refines : (x : Scene) (program_id : Pubkey) → IsRefining x (run x program_id)
unfolding process_instruction
run-refines x program_id = lift-refines x (decode_instruction_type x.input) _ λ instruction _.
    lift-refines x (x.P.next_account_info (x.account ∷ x.iter)) _ λ a e.
      fail_if-refines x (a.0.owner /= program_id) invalid_account_owner _ λ _.
        let first : (x.account, x.iter) ≡ a =
          ok_injective _ _ (sym (x.P.next_law x.account x.iter) ∙ e) in
        subst (λ b. IsRefining x (dispatch x.P instruction x.sysvars b.0 b.1 x.input x.st)) first
          (dispatch-refines x instruction)

-- Let the vote account hold a vote state and nothing be borrowed, and the input be bytes, the keys
-- 32 bytes and the epoch a u64. An instruction that succeeds leaves the vote account with a vote
-- state that the contract permits after the one that it held, and changes the data of no other
-- account.
pub process_instruction-Permitted :
    (x : Scene) (program_id : Pubkey)
    → (run x program_id).0 ≡ ok tt
    → ((t : VoteState) × Permitted x.P x.sysvars (x.account ∷ x.iter) x.s t
        × Holds x.P x.account.cell t (run x program_id).1)
      × ((j : ℕ) → x.account.cell ≢ j → ((run x program_id).1 j).contents ≡ (x.st j).contents)
process_instruction-Permitted x program_id e =
    succeeded x (run x program_id).0 (run x program_id).1 e (run-refines x program_id)

-- If the vote account holds a vote state, nothing is borrowed and the input is in range, an
-- instruction that fails or panics leaves the data of every account as it was.
pub process_instruction_atomic :
    (x : Scene) (program_id : Pubkey)
    → (run x program_id).0 ≢ ok tt
    → (j : ℕ) → ((run x program_id).1 j).contents ≡ (x.st j).contents
process_instruction_atomic x program_id ne =
    failed x (run x program_id).0 (run x program_id).1 ne (run-refines x program_id)

-- If the vote account holds a vote state, nothing is borrowed and the input is in range, an
-- instruction that succeeds on an initialized account carries the authority of the account's
-- withdrawer or of its voter.
pub process_instruction-Authorized :
    (x : Scene) (program_id : Pubkey)
    → 0 < x.s.version
    → (run x program_id).0 ≡ ok tt
    → Authorized x.P x.sysvars (x.account ∷ x.iter) x.s.authorized_withdrawer
      ⊎ Authorized x.P x.sysvars (x.account ∷ x.iter) x.s.authorized_voter.voter
process_instruction-Authorized x program_id initialised e =
    let ((_, permitted, _), _) = process_instruction-Permitted x program_id e in
    Permitted-Authorized x.P x.sysvars (x.account ∷ x.iter) initialised permitted
