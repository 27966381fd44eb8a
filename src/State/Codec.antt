-- ===== src/State/Codec.antt =====
-- `VoteState` as bytes for clients of program/src/state.rs: `serialize_into` and `deserialize`.
use alpenglow_vote.Base.{ℕ, ◌≡◌, arith, length, ◌==◌, if◌then◌else◌}
use alpenglow_vote.Exec.{Outcome, Exec, ok, panic}
use alpenglow_vote.Pod.{Bytes}
use alpenglow_vote.State.{VoteState}
use alpenglow_vote.State.Ranges.{IsVoteState}
use alpenglow_vote.Platform.{Platform, Rent}
use alpenglow_vote.Instruction.{pod_from_bytes}

module _ (P : Platform) where
  open P use {bls_pubkey_bound, pod_vote_state}

  abbrev pub size : ℕ
  size = pod_vote_state.size

  unfoldable pub deserialize : Bytes → Outcome VoteState
  deserialize vote_account_data = pod_from_bytes P pod_vote_state vote_account_data

  -- On the output buffer; `copy_from_slice` panics on one of another length.
  unfoldable pub serialize_into : VoteState → Exec Bytes (Unit {0})
  serialize_into s vote_account_data =
      if length vote_account_data == size
      then (ok tt, pod_vote_state.bytes_of s)
      else (panic, vote_account_data)

  unfoldable pub get_rent_exempt_reserve : Rent → ℕ
  get_rent_exempt_reserve rent = rent.minimum_balance size

  -- A vote state written into a buffer of its size is read back from it.
  pub deserialize-serialize_into :
      (s : VoteState) (buffer : Bytes)
      → IsVoteState bls_pubkey_bound s
      → length buffer ≡ size
      → let (r, written) = serialize_into s buffer in (r ≡ ok tt) × (deserialize written ≡ ok s)
  unfolding serialize_into deserialize pod_from_bytes
  deserialize-serialize_into s buffer h e =
      ground (arith, pod_vote_state.length_law s, pod_vote_state.cast_law s h)
