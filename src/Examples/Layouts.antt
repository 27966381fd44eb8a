-- ===== src/Examples/Layouts.antt =====
-- Concrete layouts of the data of program/src/state.rs and instruction.rs: field after field, as
-- little-endian numbers.
use alpenglow_vote.Base.{ℕ, ◌^◌, refl, Option, some, none}
use alpenglow_vote.Pod.{Pod}
use alpenglow_vote.Records.AuthorizedVoter
use alpenglow_vote.Records.AuthorizedVoter.{AuthorizedVoter}
use alpenglow_vote.Records.EpochCredit
use alpenglow_vote.Records.EpochCredit.{EpochCredit}
use alpenglow_vote.InstructionData.{
  InitializeAccountInstructionData, AuthorizeInstructionData, AuthorizeWithSeedInstructionData,
  AuthorizeCheckedWithSeedInstructionData, NotarizationVoteInstructionData, IsInitializeData,
  IsAuthorizeData, IsAuthorizeWithSeedData, IsAuthorizeCheckedWithSeedData, IsNotarizationData,
}
use alpenglow_vote.State.{VoteState}
use alpenglow_vote.State.Ranges.{IsVoteState, IsNextVoter}
use alpenglow_vote.Examples.Codecs.{pod_le, pod_pair, pod_as, pod_option, AreOption}

-- BLS keys of 96 bytes
abbrev pub bls_bound : ℕ
bls_bound = 256 ^ 96

unfoldable pub pod_voter : Pod AuthorizedVoter AuthorizedVoter.IsInRange
unfolding pod_as pod_pair pod_le
pod_voter =
    pod_as AuthorizedVoter.IsInRange (pod_pair (pod_le 8) (pod_le 32)) (λ a. (a.epoch, a.voter))
      (λ (e, v). record { epoch = e; voter = v }) (λ a. refl) (λ a h. (h.epoch_u64, h.voter_bytes))
      (λ (e, v) (he, hv). record { epoch_u64 = he; voter_bytes = hv })

unfoldable pub pod_credit : Pod EpochCredit EpochCredit.IsInRange
unfolding pod_as pod_pair pod_le
pod_credit =
    pod_as EpochCredit.IsInRange (pod_pair (pod_le 8) (pod_pair (pod_le 8) (pod_le 8)))
      (λ c. (c.epoch, (c.credits, c.prev_credits)))
      (λ (e, (c, p)). record { epoch = e; credits = c; prev_credits = p }) (λ c. refl)
      (λ c h. (h.epoch_u64, (h.credits_u64, h.prev_credits_u64)))
      (λ (e, (c, p)) (he, (hc, hp)). record {
        epoch_u64 = he;
        credits_u64 = hc;
        prev_credits_u64 = hp;
      })

unfoldable pub pod_initialize : Pod InitializeAccountInstructionData (IsInitializeData bls_bound)
unfolding pod_as pod_pair pod_le
pod_initialize =
    pod_as (IsInitializeData bls_bound)
      (pod_pair (pod_le 32)
        (pod_pair (pod_le 32) (pod_pair (pod_le 32) (pod_pair (pod_le 1) (pod_le 96)))))
      (λ a. (
        a.node_pubkey,
        (a.authorized_voter, (a.authorized_withdrawer, (a.commission, a.bls_pubkey))),
      ))
      (λ (x0, (x1, (x2, (x3, x4)))). record {
        node_pubkey = x0;
        authorized_voter = x1;
        authorized_withdrawer = x2;
        commission = x3;
        bls_pubkey = x4;
      })
      (λ a. refl)
      (λ a h. (
        h.node_pubkey_bytes,
        (
          h.authorized_voter_bytes,
          (h.authorized_withdrawer_bytes, (h.commission_u8, h.bls_pubkey_bytes)),
        ),
      ))
      (λ (x0, (x1, (x2, (x3, x4)))) (h0, (h1, (h2, (h3, h4)))). record {
        node_pubkey_bytes = h0;
        authorized_voter_bytes = h1;
        authorized_withdrawer_bytes = h2;
        commission_u8 = h3;
        bls_pubkey_bytes = h4;
      })

unfoldable pub pod_authorize : Pod AuthorizeInstructionData IsAuthorizeData
unfolding pod_as pod_pair pod_le
pod_authorize =
    pod_as IsAuthorizeData (pod_pair (pod_le 32) (pod_le 1))
      (λ a. (a.new_authorized_pubkey, a.authority_type))
      (λ (x0, x1). record { new_authorized_pubkey = x0; authority_type = x1 }) (λ a. refl)
      (λ a h. (h.new_authorized_pubkey_bytes, h.authority_type_u8))
      (λ (x0, x1) (h0, h1). record { new_authorized_pubkey_bytes = h0; authority_type_u8 = h1 })

unfoldable pub pod_with_seed : Pod AuthorizeWithSeedInstructionData IsAuthorizeWithSeedData
unfolding pod_as pod_pair pod_le
pod_with_seed =
    pod_as IsAuthorizeWithSeedData (pod_pair (pod_le 1) (pod_pair (pod_le 32) (pod_le 32)))
      (λ a. (a.authority_type, (a.current_authority_derived_key_owner, a.new_authority)))
      (λ (x0, (x1, x2)). record {
        authority_type = x0;
        current_authority_derived_key_owner = x1;
        new_authority = x2;
      })
      (λ a. refl) (λ a h. (h.authority_type_u8, (h.owner_bytes, h.new_authority_bytes)))
      (λ (x0, (x1, x2)) (h0, (h1, h2)). record {
        authority_type_u8 = h0;
        owner_bytes = h1;
        new_authority_bytes = h2;
      })

unfoldable pub pod_checked_with_seed :
    Pod AuthorizeCheckedWithSeedInstructionData IsAuthorizeCheckedWithSeedData
unfolding pod_as pod_pair pod_le
pod_checked_with_seed =
    pod_as IsAuthorizeCheckedWithSeedData (pod_pair (pod_le 1) (pod_le 32))
      (λ a. (a.authority_type, a.current_authority_derived_key_owner))
      (λ (x0, x1). record { authority_type = x0; current_authority_derived_key_owner = x1 })
      (λ a. refl) (λ a h. (h.authority_type_u8, h.owner_bytes))
      (λ (x0, x1) (h0, h1). record { authority_type_u8 = h0; owner_bytes = h1 })

unfoldable pub pod_notarization : Pod NotarizationVoteInstructionData IsNotarizationData
unfolding pod_as pod_pair pod_le
pod_notarization =
    pod_as IsNotarizationData
      (pod_pair (pod_le 1)
        (pod_pair (pod_le 8) (pod_pair (pod_le 32) (pod_pair (pod_le 8) (pod_le 32)))))
      (λ a. (a.version, (a.slot, (a.block_id, (a.replayed_slot, a.replayed_bank_hash)))))
      (λ (x0, (x1, (x2, (x3, x4)))). record {
        version = x0;
        slot = x1;
        block_id = x2;
        replayed_slot = x3;
        replayed_bank_hash = x4;
      })
      (λ a. refl)
      (λ a h. (
        h.version_u8,
        (h.slot_u64, (h.block_id_bytes, (h.replayed_slot_u64, h.replayed_bank_hash_bytes))),
      ))
      (λ (x0, (x1, (x2, (x3, x4)))) (h0, (h1, (h2, (h3, h4)))). record {
        version_u8 = h0;
        slot_u64 = h1;
        block_id_bytes = h2;
        replayed_slot_u64 = h3;
        replayed_bank_hash_bytes = h4;
      })

pub next_down :
    (o : Option AuthorizedVoter) → IsNextVoter o → AreOption pod_voter AuthorizedVoter.default o
next_down none h = tt
next_down (some a) h = h

pub next_up :
    (o : Option AuthorizedVoter) → AreOption pod_voter AuthorizedVoter.default o → IsNextVoter o
next_up none h = tt
next_up (some a) h = h

abbrev no_voter : AuthorizedVoter
no_voter = AuthorizedVoter.default

unfoldable pub pod_next_voter : Pod (Option AuthorizedVoter) IsNextVoter
unfolding pod_as pod_option pod_voter
pod_next_voter =
    pod_as IsNextVoter (pod_option pod_voter no_voter) (λ o. o) (λ o. o) (λ o. refl) next_down
      next_up

unfoldable pub pod_vote_state : Pod VoteState (IsVoteState bls_bound)
unfolding pod_as pod_pair pod_le pod_voter pod_next_voter pod_credit
pod_vote_state =
    pod_as (IsVoteState bls_bound)
      (pod_pair (pod_le 1) (
        pod_pair (pod_le 32) (
          pod_pair (pod_le 32) (
            pod_pair (pod_le 1) (
              pod_pair pod_voter (
                pod_pair pod_next_voter (
                  pod_pair pod_credit
                    (pod_pair (pod_le 8) (pod_pair (pod_le 32) (pod_le 96))))))))))
      (λ a. (
        a.version,
        (
          a.node_pubkey,
          (
            a.authorized_withdrawer,
            (
              a.commission,
              (
                a.authorized_voter,
                (
                  a.next_authorized_voter,
                  (a.epoch_credits, (a.replayed_slot, (a.replayed_bank_hash, a.bls_pubkey))),
                ),
              ),
            ),
          ),
        ),
      ))
      (λ (x0, (x1, (x2, (x3, (x4, (x5, (x6, (x7, (x8, x9))))))))). record {
        version = x0;
        node_pubkey = x1;
        authorized_withdrawer = x2;
        commission = x3;
        authorized_voter = x4;
        next_authorized_voter = x5;
        epoch_credits = x6;
        replayed_slot = x7;
        replayed_bank_hash = x8;
        bls_pubkey = x9;
      })
      (λ a. refl)
      (λ a h. (
        h.version_u8,
        (
          h.node_pubkey_bytes,
          (
            h.authorized_withdrawer_bytes,
            (
              h.commission_u8,
              (
                h.voter_range,
                (
                  h.next_voter_range,
                  (
                    h.credits_range,
                    (h.replayed_slot_u64, (h.replayed_bank_hash_bytes, h.bls_pubkey_bytes)),
                  ),
                ),
              ),
            ),
          ),
        ),
      ))
      (λ (x0, (x1, (x2, (x3, (x4, (x5, (x6, (x7, (x8, x9)))))))))
          (h0, (h1, (h2, (h3, (h4, (h5, (h6, (h7, (h8, h9))))))))).
        record {
          version_u8 = h0;
          node_pubkey_bytes = h1;
          authorized_withdrawer_bytes = h2;
          commission_u8 = h3;
          voter_range = h4;
          next_voter_range = h5;
          credits_range = h6;
          replayed_slot_u64 = h7;
          replayed_bank_hash_bytes = h8;
          bls_pubkey_bytes = h9;
        })
