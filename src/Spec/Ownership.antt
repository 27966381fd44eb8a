-- ===== src/Spec/Ownership.antt =====
-- What a permitted step of program/src/processor.rs changes only with a given authority.
use alpenglow_vote.Base.{◌<◌, ◌≡◌, refl, arith, List}
use alpenglow_vote.State.{VoteState}
use alpenglow_vote.Platform.{Platform, AccountInfo, Sysvars}
use alpenglow_vote.Spec.{
  Permitted, Authorized, signed, initialized, earned, next_voter, new_withdrawer, new_identity,
  new_commission, withdrawn,
}

-- What belongs to the withdrawer.
pub record SameOwned (s t : VoteState) : Type 0 where
  pub authorized_withdrawer : t.authorized_withdrawer ≡ s.authorized_withdrawer
  pub node_pubkey : t.node_pubkey ≡ s.node_pubkey
  pub commission : t.commission ≡ s.commission

module _ (P : Platform) {sysvars : Sysvars} {accounts : List AccountInfo} {s t : VoteState}
    (live : 0 < s.version) where
  pub Permitted-SameOwned :
      (Authorized P sysvars accounts s.authorized_withdrawer → ⊥)
      → Permitted P sysvars accounts s t
      → SameOwned s t
  Permitted-SameOwned unsigned (initialized d clock fresh _ _ _) = absurd (omega arith)
  Permitted-SameOwned unsigned (earned n clock _ _ _ _ e) = ground arith
  Permitted-SameOwned unsigned (next_voter by key clock _ _ _ e) = ground arith
  Permitted-SameOwned unsigned (new_withdrawer key signs e) = absurd (unsigned signs)
  Permitted-SameOwned unsigned (new_identity node signs _ e) = absurd (unsigned (signed signs))
  Permitted-SameOwned unsigned (new_commission c schedule clock signs _ _ _ e) =
      absurd (unsigned (signed signs))
  Permitted-SameOwned unsigned (withdrawn signs e) = absurd (unsigned (signed signs))

  pub Permitted-credits :
      (Authorized P sysvars accounts s.authorized_voter.voter → ⊥)
      → Permitted P sysvars accounts s t
      → t.epoch_credits ≡ s.epoch_credits
  Permitted-credits unsigned (initialized d clock fresh _ _ _) = absurd (omega arith)
  Permitted-credits unsigned (earned n clock _ _ _ signs e) = absurd (unsigned (signed signs))
  Permitted-credits unsigned (next_voter by key clock _ _ _ e) = rw e refl
  Permitted-credits unsigned (new_withdrawer key _ e) = rw e refl
  Permitted-credits unsigned (new_identity node _ _ e) = rw e refl
  Permitted-credits unsigned (new_commission c schedule clock _ _ _ _ e) = rw e refl
  Permitted-credits unsigned (withdrawn _ e) = rw e refl
