-- ===== src/State/SharedAccount.antt =====
-- `VoteState::create_account_with_authorized` of program/src/state.rs: a vote account for clients.
use alpenglow_vote.Base.{ℕ, ◌<◌, ◌≡◌, arith, some, true, length}
use alpenglow_vote.Word.{IsU8}
use alpenglow_vote.Exec.{Outcome, ok, err, panic}
use alpenglow_vote.Pod.{Bytes}
use alpenglow_vote.Records.{Pubkey, BlsPubkey, Epoch, IsBytes32}
use alpenglow_vote.State.{new_for_tests, is_initialized, get_authorized_voter}
use alpenglow_vote.State.Ranges.{IsVoteState}
use alpenglow_vote.State.Codec.{size, serialize_into, deserialize, deserialize-serialize_into}
use alpenglow_vote.Platform.{Platform}

-- The SDK's `AccountSharedData`, as far as it is used here.
pub record AccountSharedData : Type 0 where
  pub lamports : ℕ
  pub contents : Bytes
  pub owner : Pubkey

abbrev with_contents : Outcome (Unit {0}) × Bytes → AccountSharedData → Outcome AccountSharedData
with_contents (ok _, written) account = ok (record account { contents = written })
with_contents (err e, _) account = err e
with_contents (panic, _) account = panic

-- `new_account` is `AccountSharedData::new(lamports, space, owner)`.
module _ (P : Platform) (new_account : ℕ → ℕ → Pubkey → AccountSharedData) where
  unfoldable pub create_account_with_authorized :
      Pubkey → Pubkey → Pubkey → ℕ → ℕ → BlsPubkey → Outcome AccountSharedData
  unfolding new_for_tests serialize_into
  create_account_with_authorized node_pubkey authorized_voter authorized_withdrawer commission
        lamports bls_pubkey =
      let account = new_account lamports (size P) P.id in
      let vote_state =
        new_for_tests node_pubkey authorized_voter 0 authorized_withdrawer commission bls_pubkey in
      with_contents (serialize_into P vote_state account.contents) account

  -- If the values fit their fields and the SDK's new account has data of the asked length, the
  -- created account is the SDK's for the program and the given lamports, but for its data: that is read back as an initialized
  -- vote state, whose authorized voter is the given one in every epoch.
  pub deserialize-create_account_with_authorized :
      (node voter withdrawer commission lamports bls : ℕ)
      → IsBytes32 node
      → IsBytes32 voter
      → IsBytes32 withdrawer
      → IsU8 commission
      → bls < P.bls_pubkey_bound
      → length (new_account lamports (size P) P.id).contents ≡ size P
      → let s = new_for_tests node voter 0 withdrawer commission bls in
        (written : Bytes) × (create_account_with_authorized node voter withdrawer commission
            lamports bls
          ≡ ok (record (new_account lamports (size P) P.id) { contents = written }))
        × (deserialize P written ≡ ok s)
        × (is_initialized s ≡ true)
        × ((epoch : Epoch) → get_authorized_voter s epoch ≡ some voter)
  unfolding create_account_with_authorized new_for_tests is_initialized get_authorized_voter
  deserialize-create_account_with_authorized node voter withdrawer commission lamports bls hn hv hw
        hc hb hl =
      let s = new_for_tests node voter 0 withdrawer commission bls in
      let account = new_account lamports (size P) P.id in
      let in_range : IsVoteState P.bls_pubkey_bound s = omega arith in
      let (done, read) = deserialize-serialize_into P s account.contents in_range hl in
      (
        (serialize_into P s account.contents).1,
        ground (arith, done),
        read,
        ground arith,
        λ epoch. ground arith,
      )
