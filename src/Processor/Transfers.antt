-- ===== src/Processor/Transfers.antt =====
-- What a successful run of `process_instruction`, program/src/processor.rs, does to the lamports of
-- all accounts.
use alpenglow_vote.Base.{
  List, [], All, ◌⊎◌, inl, ℕ, zero, suc, ◌≡◌, ◌≢◌, ◌+◌, ◌-◌, ◌<◌, ◌≤◌, ◌∷◌, refl, sym, ◌∙◌, arith,
  inr, ltb, if◌then◌else◌, ◌==◌, ◌/=◌,
}
use mathlib.Core.Path.{subst}
use alpenglow_vote.Error.{invalid_account_owner}
use alpenglow_vote.Exec.{ok}
use alpenglow_vote.Records.{Pubkey}
use alpenglow_vote.Platform.{AccountInfo, Rent}
use alpenglow_vote.Account.{Store}
use alpenglow_vote.Accounting.Withdraw.{withdraw_ok_iff, withdraw_moves}
use alpenglow_vote.Spec.{Signs}
use alpenglow_vote.Instruction.{VoteInstruction, decode_instruction_type, decode_instruction_data}
use alpenglow_vote.Processor.{dispatch, process_instruction, process_withdraw}
use alpenglow_vote.Processor.AdminArms.{next_account_ok}
use alpenglow_vote.Processor.Lamports.{dispatch-KeepsRest}
use alpenglow_vote.Processor.Refines.{Scene}
use alpenglow_vote.Processor.Safety.{run, ok_injective}
use alpenglow_vote.Processor.Success.{Leaves, lift-Leaves, fail_if-Leaves, next_signer-Leaves}

pub VoteInstruction-discrete : Discrete VoteInstruction
VoteInstruction-discrete = hlevel

-- The cell `j` is that of some account of the list.
abbrev IsPassed : ℕ → List AccountInfo → Type 0
IsPassed j [] = ⊥
IsPassed j (a ∷ accounts) = (a.cell ≡ j) ⊎ IsPassed j accounts

module _ (x : Scene) where
  open x use {P, sysvars, account, iter, input, s, st, holds, idle}
  open P use {pod_u64, pod_vote_state, next_account_info, next_law}

  -- The lamports after the run: all as before, or a part of the vote account's moved to another of
  -- the accounts, with its withdrawer's signature, so that the rest is exempt from rent.
  pub data Transfers (st' : Store) : Type 0 where
    kept : ((k : ℕ) → (st' k).lamports ≡ (st k).lamports) → Transfers st'
    paid :
        (j n : ℕ) (rent : Rent)
        → Signs s.authorized_withdrawer (account ∷ iter)
        → account.cell ≢ j
        → IsPassed j iter
        → n < (st account.cell).lamports
        → sysvars.rent ≡ ok rent
        → rent.minimum_balance pod_vote_state.size ≤ (st account.cell).lamports - n
        → ((k : ℕ)
            → (st' k).lamports ≡ (
                if account.cell == k
                then (st k).lamports - n
                else if j == k
                then (st k).lamports + n
                else (st k).lamports))
        → Transfers st'

  process_withdraw-Transfers :
      Leaves Transfers st (process_withdraw P sysvars account iter input st)
  unfolding process_withdraw
  process_withdraw-Transfers =
      lift-Leaves Transfers st (next_account_info iter) _ λ (recipient, iter') hr.
        lift-Leaves Transfers st sysvars.rent _ λ rent given.
          lift-Leaves Transfers st sysvars.clock _ λ clock _.
            next_signer-Leaves Transfers st P iter' _ λ by rest n.
              lift-Leaves Transfers st (decode_instruction_data P pod_u64 input) _ λ lamports _ e.
                let i = account.cell in
                let j = recipient.cell in
                let (withdrawer, less, exempt, apart, _) =
                  (withdraw_ok_iff P i j lamports by rent clock s st holds (idle j)).0 e in
                let moves = withdraw_moves P i j lamports by rent clock s st holds (idle j) e in
                let front = next_account_ok x iter iter' recipient hr in
                paid j lamports rent
                  (inr (rw front (inr (subst (λ k. Signs k iter') (sym withdrawer) n.signs)))) apart
                  (rw front (inl refl)) less given exempt (λ k. ground (arith, moves k))

  dispatch-Transfers :
      (i : VoteInstruction) → Leaves Transfers st (dispatch P i sysvars account iter input st)
  dispatch-Transfers i = elim (VoteInstruction-discrete i VoteInstruction.withdraw) [
    | yes withdrawing ↦
        subst (λ i. Leaves Transfers st (dispatch P i sysvars account iter input st))
          (sym withdrawing) (unfold dispatch in process_withdraw-Transfers)
    | no ne ↦ λ _. kept λ k. (dispatch-KeepsRest P sysvars account iter input st i ne k).0
  ]

  run-Leaves : (program_id : Pubkey) → Leaves Transfers st (run x program_id)
  unfolding process_instruction
  run-Leaves program_id =
      lift-Leaves Transfers st (decode_instruction_type input) _ λ instruction _.
        lift-Leaves Transfers st (next_account_info (account ∷ iter)) _ λ a e.
          fail_if-Leaves Transfers st (a.0.owner /= program_id) invalid_account_owner _ λ _.
            let first : (account, iter) ≡ a = ok_injective _ _ (sym (next_law account iter) ∙ e) in
            subst (λ b. Leaves Transfers st (dispatch P instruction sysvars b.0 b.1 input st)) first
              (dispatch-Transfers instruction)

-- If the vote account holds a vote state, nothing is borrowed and the input is in range, an
-- instruction that succeeds leaves all lamports as they were, or moves fewer than the vote account's
-- from it to another of the instruction's accounts, with the signature of the withdrawer, and what
-- stays is at least the minimum balance for a vote state.
pub process_instruction-Transfers :
    (x : Scene) (program_id : Pubkey)
    → (run x program_id).0 ≡ ok tt
    → Transfers x (run x program_id).1
process_instruction-Transfers x program_id e = run-Leaves x program_id e

-- The lamports of the accounts 0 to n - 1.
abbrev pub total : ℕ → Store → ℕ
total zero st = 0
total (suc n) st = total n st + (st n).lamports

total_same :
    (n : ℕ) (st' st : Store)
    → ((k : ℕ) → (st' k).lamports ≡ (st k).lamports)
    → total n st' ≡ total n st
total_same zero st' st h = refl
total_same (suc n) st' st h = omega (arith, total_same n st' st h, h n)

total-move :
    (i j amount : ℕ) (st st' : Store)
    → i ≢ j
    → amount ≤ (st i).lamports
    → ((k : ℕ)
        → (st' k).lamports ≡ (
            if i == k
            then (st k).lamports - amount
            else if j == k
            then (st k).lamports + amount
            else (st k).lamports))
    → (n : ℕ)
    → total n st' + (if ltb i n then amount else 0) ≡ total n st + (if ltb j n then amount else 0)
total-move i j amount st st' ne fits moves zero = ground arith
total-move i j amount st st' ne fits moves (suc n) =
    ground (arith, moves n, total-move i j amount st st' ne fits moves n)

passed_below :
    (j n : ℕ) (accounts : List AccountInfo)
    → All (λ a. a.cell < n) accounts
    → IsPassed j accounts
    → j < n
passed_below j n [] _ passed = elim passed [ ]
passed_below j n (a ∷ accounts) (h, _) (inl e) = omega arith
passed_below j n (a ∷ accounts) (_, h) (inr passed) = passed_below j n accounts h passed

total-Transfers :
    (x : Scene) (st' : Store) (n : ℕ)
    → x.account.cell < n
    → All (λ a. a.cell < n) x.iter
    → Transfers x st'
    → total n st' ≡ total n x.st
total-Transfers x st' n hi h (kept same) = total_same n st' x.st same
total-Transfers x st' n hi h (paid j amount _ _ apart passed less _ _ moves) =
    let moved = total-move x.account.cell j amount x.st st' apart (omega arith) moves n in
    let hj = passed_below j n x.iter h passed in ground (arith, moved)

-- With the same conditions, a successful instruction neither makes nor loses lamports: those of any
-- range of accounts that contains the ones of the instruction add up to the same.
pub process_instruction-total :
    (x : Scene) (program_id : Pubkey) (n : ℕ)
    → x.account.cell < n
    → All (λ a. a.cell < n) x.iter
    → (run x program_id).0 ≡ ok tt
    → total n (run x program_id).1 ≡ total n x.st
process_instruction-total x program_id n hi h e =
    total-Transfers x (run x program_id).1 n hi h (process_instruction-Transfers x program_id e)
