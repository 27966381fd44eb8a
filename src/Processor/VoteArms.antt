-- ===== src/Processor/VoteArms.antt =====
-- The arms of program/src/processor.rs for the votes meet the contract.
use alpenglow_vote.Base.{◌≡◌, ◌-◌, ◌∷◌, inr, refl, sym}
use mathlib.Core.Path.{subst}
use alpenglow_vote.Error.{from_vote_error, missing_slot_hashes_sysvar}
use alpenglow_vote.Exec.{ok, panic}
use alpenglow_vote.Records.{Slot, Pubkey}
use alpenglow_vote.State.Ranges.{IsVoteState}
use alpenglow_vote.Platform.{Clock}
use alpenglow_vote.Spec.{Signs, Permitted, earned}
use alpenglow_vote.Spec.Ranges.{earn-IsVoteState}
use alpenglow_vote.Instruction.{decode_instruction_data}
use alpenglow_vote.VoteProcessor.{
  map_err, latency_to_credits, notarize_state, finalize_state, skip_state,
  process_notarization_vote, process_finalization_vote, process_skip_vote,
}
use alpenglow_vote.VoteProcessor.Credits.{latency_to_credits_bounds}
use alpenglow_vote.VoteProcessor.Votes.{
  credited, notarize_state_iff, finalize_state_iff, skip_state_iff,
}
use alpenglow_vote.Processor.{process_notarize, process_finalize, process_skip}
use alpenglow_vote.Processor.Refines.{
  Scene, IsRefining, lift-refines, next_signer-refines, write-refines,
}

module _ (x : Scene) where
  open x use {P, sysvars, account, iter, input, s, st, holds, is_input}
  open P use {bls_pubkey_bound, pod_u64, pod_notarization}

  -- The credits of a vote by a signer are permitted.
  credited-Permitted :
      (k : Pubkey) (clock : Clock) (slot : Slot)
      → s.authorized_voter.voter ≡ k
      → Signs k iter
      → sysvars.clock ≡ ok clock
      → Permitted P sysvars (account ∷ iter) s (credited clock slot s)
        × IsVoteState bls_pubkey_bound (credited clock slot s)
  unfolding credited
  credited-Permitted k clock slot voter signs hc =
      let n = latency_to_credits (clock.slot - slot) in
      let (lo, hi) = latency_to_credits_bounds (clock.slot - slot) in
      (
        earned n clock lo hi hc (inr (subst (λ y. Signs y iter) (sym voter) signs)) refl,
        earn-IsVoteState bls_pubkey_bound clock.epoch n s (is_input.clock_u64 clock hc)
            holds.in_range,
      )

  pub process_finalize-refines : IsRefining x (process_finalize P sysvars account iter input st)
  unfolding process_finalize process_finalization_vote
  process_finalize-refines = lift-refines x sysvars.clock _ λ clock hc.
      next_signer-refines x iter _ λ k rest n.
        lift-refines x (decode_instruction_data P pod_u64 input) _ λ slot _.
          let (accepts, left) = finalize_state_iff k clock slot s in
          write-refines x panic panic (finalize_state k clock slot) (credited clock slot s) left
            λ e. credited-Permitted k clock slot (accepts.0 e) n.signs hc

  pub process_notarize-refines : IsRefining x (process_notarize P sysvars account iter input st)
  unfolding process_notarize process_notarization_vote
  process_notarize-refines = lift-refines x sysvars.clock _ λ clock hc.
      lift-refines x (map_err (from_vote_error missing_slot_hashes_sysvar) sysvars.slot_hashes) _
        λ hashes _. next_signer-refines x iter _ λ k rest n.
          lift-refines x (decode_instruction_data P pod_notarization input) _ λ v _.
            let (accepts, left) = notarize_state_iff k clock hashes v s in
            write-refines x panic panic (notarize_state k clock hashes v) (credited clock v.slot s)
              left λ e. credited-Permitted k clock v.slot (accepts.0 e).0 n.signs hc

  pub process_skip-refines : IsRefining x (process_skip P sysvars account iter input st)
  unfolding process_skip process_skip_vote
  process_skip-refines = lift-refines x sysvars.clock _ λ clock hc.
      lift-refines x (map_err (from_vote_error missing_slot_hashes_sysvar) sysvars.slot_hashes) _
        λ hashes _. next_signer-refines x iter _ λ k rest n.
          lift-refines x (decode_instruction_data P pod_u64 input) _ λ slot _.
            let (accepts, left) = skip_state_iff k clock hashes slot s in
            write-refines x panic panic (skip_state k clock hashes slot) (credited clock slot s)
              left λ e. credited-Permitted k clock slot (accepts.0 e).0 n.signs hc
