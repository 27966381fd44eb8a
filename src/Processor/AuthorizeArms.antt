-- ===== src/Processor/AuthorizeArms.antt =====
-- The four arms of program/src/processor.rs that hand over an authority meet the contract.
use alpenglow_vote.Base.{◌≡◌, ◌∷◌, inr, refl, sym, arith, not}
use mathlib.Core.Path.{subst}
use alpenglow_vote.Error.{invalid_argument, account_borrow_failed}
use alpenglow_vote.Exec.{ok, err}
use alpenglow_vote.Records.{Pubkey, IsBytes32}
use alpenglow_vote.InstructionData.{AuthorityType, voter, withdrawer, authority_type_from_u8}
use alpenglow_vote.State.Ranges.{IsVoteState}
use alpenglow_vote.Platform.{Clock}
use alpenglow_vote.Spec.{Permitted, Authorized, signed, derived, next_voter, new_withdrawer}
use alpenglow_vote.Instruction.{decode_instruction_data, decode_instruction_data_with_seed}
use alpenglow_vote.Instruction.Decode.{
  decode_instruction_data-range, decode_instruction_data_with_seed-range,
}
use alpenglow_vote.Accounting.{authorize, authorize_state}
use alpenglow_vote.Accounting.Authority.{authorized, MayAuthorize, authorize_state_iff}
use alpenglow_vote.Processor.{
  process_authorize, process_authorize_checked, process_authorize_with_seed,
  process_authorize_checked_with_seed,
}
use alpenglow_vote.Processor.Refines.{
  Scene, IsRefining, lift-refines, ok_or-refines, fail_if-refines, next_signer-refines,
  write-refines,
}

module _ (x : Scene) where
  open x use {P, sysvars, account, iter, input, s, st, holds, is_input}
  open P use {
    bls_pubkey_bound, pod_u8, pod_authorize, pod_with_seed, pod_checked_with_seed, is_utf8,
    create_with_seed, pod_cast_error,
  }

  authorized-Permitted :
      (key : Pubkey) (type : AuthorityType) (by : Pubkey) (clock : Clock)
      → IsBytes32 key
      → Authorized P sysvars (account ∷ iter) by
      → sysvars.clock ≡ ok clock
      → MayAuthorize type by clock s
      → Permitted P sysvars (account ∷ iter) s (authorized key type clock s)
        × IsVoteState bls_pubkey_bound (authorized key type clock s)
  unfolding authorized
  authorized-Permitted key voter by clock hk ha hc (may, fits) =
      (next_voter by key clock may ha hc refl, ground (arith, holds.in_range))
  authorized-Permitted key withdrawer by clock hk ha hc may = (
    new_withdrawer key (subst (Authorized P sysvars (account ∷ iter)) (sym may) ha) refl,
    ground (arith, holds.in_range),
  )

  authorize-refines :
      (key : Pubkey) (type : AuthorityType) (by : Pubkey) (clock : Clock)
      → IsBytes32 key
      → Authorized P sysvars (account ∷ iter) by
      → sysvars.clock ≡ ok clock
      → IsRefining x (authorize P account.cell key type by clock st)
  unfolding authorize
  authorize-refines key type by clock hk ha hc =
      let (accepts, left) = authorize_state_iff key type by clock s in
      write-refines x (err account_borrow_failed) (err pod_cast_error)
        (authorize_state key type by clock) (authorized key type clock s) left
        λ e. authorized-Permitted key type by clock hk ha hc (accepts.0 e)

  pub process_authorize-refines : IsRefining x (process_authorize P sysvars account iter input st)
  unfolding process_authorize
  process_authorize-refines = lift-refines x sysvars.clock _ λ clock hc.
      next_signer-refines x iter _ λ k rest n.
        lift-refines x (decode_instruction_data P pod_authorize input) _ λ d hd.
          ok_or-refines x (authority_type_from_u8 d.authority_type) _ _ λ type _.
            authorize-refines d.new_authorized_pubkey type k clock
              (decode_instruction_data-range P pod_authorize input d is_input.bytes
                hd).new_authorized_pubkey_bytes
              (signed (inr n.signs)) hc

  pub process_authorize_checked-refines :
      IsRefining x (process_authorize_checked P sysvars account iter input st)
  unfolding process_authorize_checked
  process_authorize_checked-refines = lift-refines x sysvars.clock _ λ clock hc.
      next_signer-refines x iter _ λ k rest n. next_signer-refines x rest _ λ key _ n'.
        lift-refines x (decode_instruction_data P pod_u8 input) _ λ b _.
          ok_or-refines x (authority_type_from_u8 b) _ _ λ type _.
            authorize-refines key type k clock (n'.key (n.keys is_input.keys.1))
              (signed (inr n.signs)) hc

  pub process_authorize_with_seed-refines :
      IsRefining x (process_authorize_with_seed P sysvars account iter input st)
  unfolding process_authorize_with_seed
  process_authorize_with_seed-refines = lift-refines x sysvars.clock _ λ clock hc.
      next_signer-refines x iter _ λ base rest n.
        lift-refines x (decode_instruction_data_with_seed P pod_with_seed input) _ λ (d, seed) hd.
          fail_if-refines x (not (is_utf8 seed)) invalid_argument _ λ _.
            ok_or-refines x (authority_type_from_u8 d.authority_type) _ _ λ type _.
              lift-refines x (create_with_seed base seed d.current_authority_derived_key_owner) _
                λ k hk.
                  authorize-refines d.new_authority type k clock
                    (decode_instruction_data_with_seed-range P pod_with_seed input seed d
                      is_input.bytes hd).new_authority_bytes
                    (derived base seed d.current_authority_derived_key_owner (inr n.signs) hk) hc

  pub process_authorize_checked_with_seed-refines :
      IsRefining x (process_authorize_checked_with_seed P sysvars account iter input st)
  unfolding process_authorize_checked_with_seed
  process_authorize_checked_with_seed-refines = lift-refines x sysvars.clock _ λ clock hc.
      next_signer-refines x iter _ λ base rest n. next_signer-refines x rest _ λ key _ n'.
        lift-refines x (decode_instruction_data_with_seed P pod_checked_with_seed input) _
          λ (d, seed) _. fail_if-refines x (not (is_utf8 seed)) invalid_argument _ λ _.
            ok_or-refines x (authority_type_from_u8 d.authority_type) _ _ λ type _.
              lift-refines x (create_with_seed base seed d.current_authority_derived_key_owner) _
                λ k hk.
                  authorize-refines key type k clock (n'.key (n.keys is_input.keys.1))
                    (derived base seed d.current_authority_derived_key_owner (inr n.signs) hk) hc
