-- ===== src/Examples/RequestWitnesses.antt =====
-- Theorems on the requests that a client sends to process_instruction, program/src/processor.rs, and
-- on the accounts it makes, applied to the sample accounts.
use alpenglow_vote.Base.{◌<◌, ◌≡◌, ◌≢◌, ◌↔◌, ◌∷◌, [], refl, arith}
use alpenglow_vote.Exec.{ok, panic}
use alpenglow_vote.Pod.{Bytes, AreBytes}
use alpenglow_vote.Records.{Slot}
use alpenglow_vote.Platform.{Clock}
use alpenglow_vote.Instruction.{encode_instruction, encode_instruction_with_seed, to_u8}
use alpenglow_vote.Builders
use alpenglow_vote.Client.{withdraw, update_commission, perform, AreSmall, build}
use alpenglow_vote.Processor.{process_instruction}
use alpenglow_vote.Processor.Refines.{Scene}
use alpenglow_vote.Processor.Safety.{run, ok_injective}
use mathlib.Core.Path.{subst}
use alpenglow_vote.Processor.Requests.{process-build}
use alpenglow_vote.Processor.Writes.{process-build_writes}
use alpenglow_vote.Processor.Allowed.{IsAllowed, process-build_ok_iff}
use alpenglow_vote.Processor.Transfers.{Transfers, process_instruction-Transfers}
use alpenglow_vote.Processor.Panics.{IsCalm}
use alpenglow_vote.Examples.Codecs.{to_le, pod_le, pod_pair, pod_as}
use alpenglow_vote.Examples.Layouts.{
  pod_vote_state, pod_voter, pod_next_voter, pod_credit, pod_initialize, pod_authorize,
  pod_with_seed, pod_checked_with_seed,
}
use alpenglow_vote.Examples.Sample.{sample}
use alpenglow_vote.Examples.Accounts.{
  voting, vote_account, withdrawer_account, recipient_account, clock, rent, hashes, schedule,
  sysvars, store, store-IsIdle, store-Holds,
}

pub sample-AreSmall : AreSmall sample
unfolding sample pod_le pod_initialize pod_authorize pod_with_seed pod_checked_with_seed pod_pair
    pod_as
sample-AreSmall = record {
  u8_small = omega arith;
  u64_small = omega arith;
  initialize_small = omega arith;
  authorize_small = omega arith;
  with_seed_small = omega arith;
  checked_with_seed_small = omega arith;
}

-- the withdrawer raises the commission from 10 to 11
process-build_example :
    process_instruction sample sysvars 77
      (vote_account ∷ withdrawer_account ∷ [])
      (build sample 1 (update_commission withdrawer_account 11)).payload
      store
    ≡ perform sample 0 rent clock schedule (update_commission withdrawer_account 11) store
unfolding sample Builders.update_commission encode_instruction
process-build_example =
    process-build sample sysvars rent clock schedule vote_account store sample-AreSmall refl refl
      refl refl (update_commission withdrawer_account 11) (omega arith) (refl, tt, (refl, refl, tt))

abbrev pub withdrawal : Bytes
withdrawal = (build sample 1 (withdraw recipient_account withdrawer_account 300)).payload

-- the withdrawer asks for 300 of the vote account's 1000 lamports
process-build_ok_iff_example :
    ((process_instruction sample sysvars 77
        (vote_account ∷ recipient_account ∷ withdrawer_account ∷ [])
        withdrawal
        store).0
      ≡ ok tt)
    ↔ IsAllowed sample rent clock schedule 0 voting store
        (withdraw recipient_account withdrawer_account 300)
unfolding sample Builders.withdraw encode_instruction
process-build_ok_iff_example =
    process-build_ok_iff sample sysvars rent clock schedule vote_account voting store store-Holds
      store-IsIdle sample-AreSmall refl refl refl refl
      (withdraw recipient_account withdrawer_account 300) (omega arith)
      (refl, tt, (refl, tt, (refl, refl, tt)))

-- the withdrawer's own account is not marked as writable
process-build_writes_example :
    (process_instruction sample sysvars 77
        (vote_account ∷ recipient_account ∷ withdrawer_account ∷ [])
        withdrawal
        store).1
      2
    ≡ store 2
unfolding sample Builders.withdraw encode_instruction encode_instruction_with_seed
process-build_writes_example =
    process-build_writes sample sysvars rent clock schedule vote_account store sample-AreSmall refl
      refl refl refl (withdraw recipient_account withdrawer_account 300) (omega arith)
      (refl, tt, (refl, tt, (refl, refl, tt))) 2 (λ h. ground (arith, h))

allowed :
    IsAllowed sample rent clock schedule 0 voting store
      (withdraw recipient_account withdrawer_account 300)
unfolding sample pod_vote_state pod_voter pod_next_voter pod_credit pod_le
allowed = omega arith

pub withdrawal-AreBytes : AreBytes withdrawal
unfolding Builders.withdraw encode_instruction encode_instruction_with_seed to_u8 sample pod_le
    to_le
withdrawal-AreBytes = omega arith

pub own_clock : (c : Clock) → sysvars.clock ≡ ok c → c.epoch < 18446744073709551616
own_clock c e = ground arith

abbrev pub withdrawing : Scene
withdrawing = record {
  P = sample;
  sysvars = sysvars;
  account = vote_account;
  iter = recipient_account ∷ withdrawer_account ∷ [];
  input = withdrawal;
  s = voting;
  st = store;
  holds = store-Holds;
  idle = store-IsIdle;
  is_input = record {
    bytes = withdrawal-AreBytes;
    keys = (omega arith, (omega arith, (omega arith, tt)));
    clock_u64 = own_clock;
  };
}

pub withdrawn : (run withdrawing 77).0 ≡ ok tt
withdrawn = process-build_ok_iff_example.1 allowed

process_instruction-Transfers_example : Transfers withdrawing (run withdrawing 77).1
process_instruction-Transfers_example = process_instruction-Transfers withdrawing 77 withdrawn

hashes_calm : (slot : Slot) → hashes.get slot ≢ panic
hashes_calm slot = ground arith

pub sample-IsCalm : IsCalm sample sysvars
unfolding sample
sample-IsCalm = record {
  rent_calm = λ e. cc;
  clock_calm = λ e. cc;
  epoch_schedule_calm = λ e. cc;
  slot_hashes_calm = λ e. cc;
  get_calm =
      λ given slot e. subst (λ h. h.get slot ≢ panic) (ok_injective _ _ e) (hashes_calm slot);
  create_with_seed_calm = λ base seed owner e. cc;
  unpack_seed_calm = λ bytes e. cc;
}
