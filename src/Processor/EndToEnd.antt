-- ===== src/Processor/EndToEnd.antt =====
-- A client's vote through the whole program: `to_vote_instruction` of program/src/vote.rs, the
-- builders of program/src/instruction.rs and `process_instruction` of program/src/processor.rs.
use alpenglow_vote.Base.{
  ℕ, ◌≡◌, ◌<◌, ◌∷◌, [], List, Bool, true, false, arith, some, none, refl, sym,
}
use alpenglow_vote.Word.{u64_max}
use alpenglow_vote.Exec.{ok, panic}
use alpenglow_vote.Base.{◌∙◌}
use alpenglow_vote.Instruction.{decode_instruction_type, decode_instruction_data}
use alpenglow_vote.Pod.{Bytes}
use alpenglow_vote.InstructionData.{NotarizationVoteInstructionData}
use alpenglow_vote.State.{VoteState}
use alpenglow_vote.Platform.{Platform, AccountInfo, Sysvars, Clock, SlotHashes}
use alpenglow_vote.Account.{Store}
use alpenglow_vote.Account.Laws.{Holds, write, borrow_mut_data-cast_mut}
use alpenglow_vote.Vote
use alpenglow_vote.Vote.{Vote, notarize, finalize, skip, notarize_fallback, skip_fallback}
use alpenglow_vote.Vote.Wire.{IsVote, to_vote_instruction, sent_data}
use alpenglow_vote.Builders
use alpenglow_vote.Builders.{vote_accounts}
use alpenglow_vote.Instruction.{VoteInstruction, AccountMeta, encode_instruction}
use alpenglow_vote.Instruction.RoundTrip.{decode-encode}
use alpenglow_vote.VoteProcessor.Votes.{
  credited, notarize_state_iff, finalize_state_iff, skip_state_iff,
}
use alpenglow_vote.VoteProcessor.{
  notarize_state, finalize_state, skip_state, process_notarization_vote, process_finalization_vote,
  process_skip_vote,
}
use alpenglow_vote.Processor.{
  process_instruction, dispatch, process_notarize, process_finalize, process_skip, next_signer,
}

abbrev IsSigned : Bool → AccountInfo → Type 0
IsSigned true a = a.is_signer ≡ true
IsSigned false a = Unit {0}

-- The accounts that the runtime passes for an instruction's metas: the listed ones, in order, with
-- the signatures that the metas ask for.
abbrev pub AreResolved : List AccountMeta → List AccountInfo → Type 0
AreResolved [] [] = Unit {0}
AreResolved (m ∷ metas) (a ∷ accounts) =
    (a.key ≡ m.pubkey) × IsSigned m.is_signer a × AreResolved metas accounts
AreResolved _ _ = ⊥

-- What the program asks of a vote beside its voter: a notarization's bank hash is that of its slot,
-- a skipped slot is over and has none.
abbrev pub IsCurrent : Clock → SlotHashes → Vote → Type 0
IsCurrent clock hashes (notarize v) = hashes.get v.slot ≡ ok (some v.replayed_bank_hash)
IsCurrent clock hashes (finalize v) = Unit {0}
IsCurrent clock hashes (skip v) = (v.slot < clock.slot) × (hashes.get v.slot ≡ ok none)
IsCurrent clock hashes (notarize_fallback v) = hashes.get v.slot ≡ ok (some v.replayed_bank_hash)
IsCurrent clock hashes (skip_fallback v) = (v.slot < clock.slot) × (hashes.get v.slot ≡ ok none)

module _ (P : Platform) (sysvars : Sysvars) (clock : Clock) (hashes : SlotHashes)
    (account authority : AccountInfo) (s : VoteState) (st : Store) (h : Holds P account.cell s st)
    (hn : P.pod_notarization.size < u64_max) (hs : P.pod_u64.size < u64_max)
    (owned : account.owner ≡ P.id) (hc : sysvars.clock ≡ ok clock)
    (hh : sysvars.slot_hashes ≡ ok hashes) where
  -- The steps up to the arm, and each arm of a vote, with the voter as signer.
  process_instruction-dispatch :
      (i : VoteInstruction) (input : Bytes)
      → decode_instruction_type input ≡ ok i
      → process_instruction P sysvars P.id (account ∷ authority ∷ []) input st
        ≡ dispatch P i sysvars account (authority ∷ []) input st
  unfolding process_instruction
  process_instruction-dispatch i input number =
      ground (arith, number, P.next_law account (authority ∷ []))

  module _ (signs : authority.is_signer ≡ true)
      (voter : authority.key ≡ s.authorized_voter.voter) where
    process_notarize-write :
        (input : Bytes) (d : NotarizationVoteInstructionData)
        → decode_instruction_data P P.pod_notarization input ≡ ok d
        → d.version ≡ 1
        → hashes.get d.slot ≡ ok (some d.replayed_bank_hash)
        → process_notarize P sysvars account (authority ∷ []) input st
          ≡ (ok tt, write P account.cell (credited clock d.slot s) st)
    unfolding process_notarize next_signer process_notarization_vote
    process_notarize-write input d value version current =
        let (accepts, left) = notarize_state_iff authority.key clock hashes d s in
        let accepted = accepts.1 (sym voter, version, current) in
        ground (
          arith,
          value,
          P.next_law authority [],
          P.signer_law authority signs,
          left,
          accepted,
          borrow_mut_data-cast_mut P panic panic account.cell
              (notarize_state authority.key clock hashes d) s st h,
        )

    process_finalize-write :
        (input : Bytes) (slot : ℕ)
        → decode_instruction_data P P.pod_u64 input ≡ ok slot
        → process_finalize P sysvars account (authority ∷ []) input st
          ≡ (ok tt, write P account.cell (credited clock slot s) st)
    unfolding process_finalize next_signer process_finalization_vote
    process_finalize-write input slot value =
        let (accepts, left) = finalize_state_iff authority.key clock slot s in
        let accepted = accepts.1 (sym voter) in
        ground (
          arith,
          value,
          P.next_law authority [],
          P.signer_law authority signs,
          left,
          accepted,
          borrow_mut_data-cast_mut P panic panic account.cell
              (finalize_state authority.key clock slot) s st h,
        )

    process_skip-write :
        (input : Bytes) (slot : ℕ)
        → decode_instruction_data P P.pod_u64 input ≡ ok slot
        → slot < clock.slot
        → hashes.get slot ≡ ok none
        → process_skip P sysvars account (authority ∷ []) input st
          ≡ (ok tt, write P account.cell (credited clock slot s) st)
    unfolding process_skip next_signer process_skip_vote
    process_skip-write input slot value over current =
        let (accepts, left) = skip_state_iff authority.key clock hashes slot s in
        let accepted = accepts.1 (sym voter, over, current) in
        ground (
          arith,
          value,
          P.next_law authority [],
          P.signer_law authority signs,
          left,
          accepted,
          borrow_mut_data-cast_mut P panic panic account.cell
              (skip_state authority.key clock hashes slot) s st h,
        )

  abbrev metas : List AccountMeta
  metas = vote_accounts account.key s.authorized_voter.voter

  -- Let the clock and the slot hashes be there, the vote account be at rest and the program's, and
  -- votes shorter than the largest u64. A vote in range that the
  -- client turns into an instruction for it and its authorized voter is accepted by the program, if
  -- it is current: the program writes the vote account's state with the credits of the vote's slot.
  pub process-to_vote_instruction :
      (v : Vote)
      → IsVote P v
      → IsCurrent clock hashes v
      → AreResolved
          (to_vote_instruction P v account.key s.authorized_voter.voter).accounts
          (account ∷ authority ∷ [])
      → process_instruction P sysvars P.id
          (account ∷ authority ∷ [])
          (to_vote_instruction P v account.key s.authorized_voter.voter).payload
          st
        ≡ (ok tt, write P account.cell (credited clock (Vote.slot v) s) st)
  unfolding dispatch to_vote_instruction Vote.slot Builders.notarize Builders.finalize Builders.skip
      Builders.notarize_fallback Builders.skip_fallback encode_instruction
  process-to_vote_instruction (notarize v) hv current (_, _, (voter, signs, _)) =
      let d : NotarizationVoteInstructionData =
        sent_data P v.slot v.block_id v.replayed_bank_hash in
      let (number, value) =
        decode-encode P P.pod_notarization metas VoteInstruction.notarize d (omega arith) hn in
      process_instruction-dispatch _ _ number
      ∙ process_notarize-write signs voter _ d value refl current
  process-to_vote_instruction (finalize v) hv current (_, _, (voter, signs, _)) =
      let (number, value) = decode-encode P P.pod_u64 metas VoteInstruction.finalize v.slot hv hs in
      process_instruction-dispatch _ _ number ∙ process_finalize-write signs voter _ v.slot value
  process-to_vote_instruction (skip v) hv current (_, _, (voter, signs, _)) =
      let (number, value) = decode-encode P P.pod_u64 metas VoteInstruction.skip v.slot hv hs in
      process_instruction-dispatch _ _ number
      ∙ process_skip-write signs voter _ v.slot value current.0 current.1
  process-to_vote_instruction (notarize_fallback v) hv current (_, _, (voter, signs, _)) =
      let d : NotarizationVoteInstructionData =
        sent_data P v.slot v.block_id v.replayed_bank_hash in
      let (number, value) =
        decode-encode P P.pod_notarization metas VoteInstruction.notarize_fallback d (omega arith)
          hn in
      process_instruction-dispatch _ _ number
      ∙ process_notarize-write signs voter _ d value refl current
  process-to_vote_instruction (skip_fallback v) hv current (_, _, (voter, signs, _)) =
      let (number, value) =
        decode-encode P P.pod_u64 metas VoteInstruction.skip_fallback v.slot hv hs in
      process_instruction-dispatch _ _ number
      ∙ process_skip-write signs voter _ v.slot value current.0 current.1
