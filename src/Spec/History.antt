-- ===== src/Spec/History.antt =====
-- What every history of permitted steps keeps: consequences of the contract for the vote accounts
-- of program/src/processor.rs.
use alpenglow_vote.Base.{◌<◌, ◌≡◌, refl, sym, ◌∙◌, ◌⊎◌, inl, inr, arith, Option, none, some, List}
use mathlib.Core.Path.{subst}
use alpenglow_vote.Records.AuthorizedVoter.{AuthorizedVoter}
use alpenglow_vote.State.{VoteState, new}
use alpenglow_vote.Platform.{Platform, AccountInfo, Sysvars}
use alpenglow_vote.Spec.{
  Permitted, Authorized, signed, initialized, earned, next_voter, new_withdrawer, new_identity,
  new_commission, withdrawn,
}

module _ (P : Platform) where
  module _ (sysvars : Sysvars) (accounts : List AccountInfo) {s t : VoteState} where
    pub Permitted-Authorized :
        0 < s.version
        → Permitted P sysvars accounts s t
        → Authorized P sysvars accounts s.authorized_withdrawer
          ⊎ Authorized P sysvars accounts s.authorized_voter.voter
    Permitted-Authorized live (initialized d clock fresh _ _ _) = absurd (omega arith)
    Permitted-Authorized live (earned n clock _ _ _ signs _) = inr (signed signs)
    Permitted-Authorized live (next_voter by key clock (inl may) ha _ _) =
        inl (subst (Authorized P sysvars accounts) (sym may) ha)
    Permitted-Authorized live (next_voter by key clock (inr may) ha _ _) =
        inr (subst (Authorized P sysvars accounts) (sym may) ha)
    Permitted-Authorized live (new_withdrawer key ha _) = inl ha
    Permitted-Authorized live (new_identity node signs _ _) = inl (signed signs)
    Permitted-Authorized live (new_commission c schedule clock signs _ _ _ _) = inl (signed signs)
    Permitted-Authorized live (withdrawn signs _) = inl (signed signs)

  -- Any number of instructions, each with sysvars and accounts of its own.
  pub data History (s : VoteState) : VoteState → Type 0 where
    here : History s s
    next :
        {t u : VoteState} (sysvars : Sysvars) (accounts : List AccountInfo)
        → History s t
        → Permitted P sysvars accounts t u
        → History s u

  -- What no instruction changes once an account is initialized.
  pub record SameFixed (s t : VoteState) : Type 0 where
    pub version : t.version ≡ s.version
    pub authorized_voter : t.authorized_voter ≡ s.authorized_voter
    pub bls_pubkey : t.bls_pubkey ≡ s.bls_pubkey

  Permitted-SameFixed :
      {sysvars : Sysvars} {accounts : List AccountInfo} {s t : VoteState}
      → 0 < s.version
      → Permitted P sysvars accounts s t
      → SameFixed s t
  Permitted-SameFixed live (initialized d clock fresh _ _ _) = absurd (omega arith)
  Permitted-SameFixed live (earned n clock _ _ _ _ e) = ground arith
  Permitted-SameFixed live (next_voter by key clock _ _ _ e) = ground arith
  Permitted-SameFixed live (new_withdrawer key _ e) = ground arith
  Permitted-SameFixed live (new_identity node _ _ e) = ground arith
  Permitted-SameFixed live (new_commission c schedule clock _ _ _ _ e) = ground arith
  Permitted-SameFixed live (withdrawn _ e) = ground arith

  -- Over any history of an initialized account the authorized voter stays the same, also after the
  -- epoch of the next authorized voter has come; so do the version and the BLS key.
  pub History-SameFixed : {s t : VoteState} → 0 < s.version → History s t → SameFixed s t
  History-SameFixed live here = record {
    version = refl;
    authorized_voter = refl;
    bls_pubkey = refl;
  }
  History-SameFixed live (next {t = u} sysvars accounts past step) =
      let before = History-SameFixed live past in
      let after = Permitted-SameFixed (omega (arith, before.version)) step in
      record {
        version = after.version ∙ before.version;
        authorized_voter = after.authorized_voter ∙ before.authorized_voter;
        bls_pubkey = after.bls_pubkey ∙ before.bls_pubkey;
      }

  -- A next authorized voter has an epoch above 0.
  abbrev pub IsLater : Option AuthorizedVoter → Type 0
  IsLater none = Unit {0}
  IsLater (some av) = 0 < av.epoch

  Permitted-IsLater :
      {sysvars : Sysvars} {accounts : List AccountInfo} {s t : VoteState}
      → IsLater s.next_authorized_voter
      → Permitted P sysvars accounts s t
      → IsLater t.next_authorized_voter
  Permitted-IsLater {t = t} h (initialized d clock _ _ _ e) = rw e (unfold new in tt)
  Permitted-IsLater h (earned n clock _ _ _ _ e) = rw e h
  Permitted-IsLater h (next_voter by key clock _ _ _ e) = rw e (omega arith)
  Permitted-IsLater h (new_withdrawer key _ e) = rw e h
  Permitted-IsLater h (new_identity node _ _ e) = rw e h
  Permitted-IsLater h (new_commission c schedule clock _ _ _ _ e) = rw e h
  Permitted-IsLater h (withdrawn _ e) = rw e h

  -- Over any history that starts with no next authorized voter of epoch 0, there is none later.
  pub History-IsLater :
      {s t : VoteState}
      → IsLater s.next_authorized_voter
      → History s t
      → IsLater t.next_authorized_voter
  History-IsLater h here = h
  History-IsLater h (next sysvars accounts past step) =
      Permitted-IsLater (History-IsLater h past) step
