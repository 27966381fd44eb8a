-- ===== src/Account/Laws.antt =====
-- A vote account at rest, and the access of program/src/state.rs, accounting.rs and
-- vote_processor.rs to it.
use alpenglow_vote.Base.{arith, ℕ, ◌≡◌, refl, ==_refl, length}
use alpenglow_vote.Exec.{Outcome, Exec, ok}
use alpenglow_vote.State.{VoteState}
use alpenglow_vote.State.Ranges.{IsVoteState}
use alpenglow_vote.Platform.{Platform}
use alpenglow_vote.Account.{
  account_lamports, account_data_len, free, Store, set_contents, borrow_mut_data, cast_mut,
}

-- Nothing borrows the account `i`.
pub record IsIdle (i : ℕ) (st : Store) : Type 0 where
  pub lamports_free : (st i).lamports_borrow ≡ free
  pub contents_free : (st i).contents_borrow ≡ free

-- Where nothing borrows the account, its lamports and the length of its data can be read.
pub account_lamports-eq :
    (i : ℕ) (st : Store) → IsIdle i st → account_lamports i st ≡ (ok (st i).lamports, st)
account_lamports-eq i st h = rw h.lamports_free refl

pub account_data_len-eq :
    (i : ℕ) (st : Store) → IsIdle i st → account_data_len i st ≡ (ok (length (st i).contents), st)
account_data_len-eq i st h = rw h.contents_free refl

module _ (P : Platform) where
  open P use {bls_pubkey_bound, pod_vote_state}

  -- The account `i` is idle and its data is the vote state `s`.
  pub record Holds (i : ℕ) (s : VoteState) (st : Store) : Type 0 where
    pub idle : IsIdle i st
    pub stored : (st i).contents ≡ pod_vote_state.bytes_of s
    pub in_range : IsVoteState bls_pubkey_bound s

  -- The store with the vote state `s` written to account `i`.
  abbrev pub write : ℕ → VoteState → Store → Store
  write i s st = set_contents i (pod_vote_state.bytes_of s) st

  pub Holds-write :
      (i : ℕ) (s t : VoteState) (st : Store)
      → Holds i s st
      → IsVoteState bls_pubkey_bound t
      → Holds i t (write i t st)
  Holds-write i s t st h in_range = record {
    idle = record {
      lamports_free = ground (arith, h.idle.lamports_free);
      contents_free = ground (arith, h.idle.contents_free);
    };
    stored = ground arith;
    in_range = in_range;
  }

  -- On an account that holds `s`, a handler over `&mut VoteState` runs its block on `s` and
  -- writes what the block leaves.
  pub borrow_mut_data-cast_mut :
      {A : Type 0} (blocked mismatch : Outcome A) (i : ℕ) (body : Exec VoteState A) (s : VoteState)
      (st : Store)
      → Holds i s st
      → borrow_mut_data blocked i (cast_mut P mismatch body) st
        ≡ ((body s).0, write i (body s).1 st)
  unfolding borrow_mut_data cast_mut
  borrow_mut_data-cast_mut blocked mismatch i body s st h =
      rw
        (
          h.idle.contents_free,
          h.stored,
          pod_vote_state.length_law s,
          ==_refl pod_vote_state.size,
          pod_vote_state.cast_law s h.in_range,
        )
        (rw h.idle.contents_free)
