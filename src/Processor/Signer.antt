-- ===== src/Processor/Signer.antt =====
-- `next_account_info(iter)?.signer_key()` of program/src/processor.rs: whose signature it takes.
use alpenglow_vote.Base.{
  ◌≡◌, ◌∙◌, inl, inr, true, Bool-cases, Option, some, none, List, [], ◌∷◌, arith, All, Option-cases,
}
use alpenglow_vote.Error.{missing_required_signature}
use alpenglow_vote.Exec.{Outcome, ok, err}
use alpenglow_vote.Records.{Pubkey, IsBytes32}
use alpenglow_vote.Platform.{Platform, AccountInfo}
use alpenglow_vote.Account.{Store}
use alpenglow_vote.Spec.{Signs}
use alpenglow_vote.Processor.{next_signer}

-- The next account of `iter` signs with `k`, and `rest` follows it.
pub record Next (iter : List AccountInfo) (k : Pubkey) (rest : List AccountInfo) : Type 0 where
  pub signs : Signs k iter
  pub later : (j : Pubkey) → Signs j rest → Signs j iter
  pub key : All (λ a. IsBytes32 a.key) iter → IsBytes32 k
  pub keys : All (λ a. IsBytes32 a.key) iter → All (λ a. IsBytes32 a.key) rest

module _ (P : Platform) where
  open P use {next_law, no_account, no_account_law, signer_key, signer_law, not_signer_law}

  abbrev named : Option Pubkey → List AccountInfo → Outcome (Pubkey × List AccountInfo)
  named none rest = err missing_required_signature
  named (some k) rest = ok (k, rest)

  abbrev pub next_outcome : List AccountInfo → Outcome (Pubkey × List AccountInfo)
  next_outcome [] = err no_account
  next_outcome (a ∷ rest) = named (signer_key a) rest

  pub next_signer-eq :
      (iter : List AccountInfo) (st : Store) → next_signer P iter st ≡ (next_outcome iter, st)
  unfolding next_signer
  next_signer-eq [] st = ground (arith, no_account_law)
  next_signer-eq (a ∷ rest) st = ground (arith, next_law a rest)

  signer_of :
      (a : AccountInfo) (k : Pubkey) → signer_key a ≡ some k → (a.is_signer ≡ true) × (a.key ≡ k)
  signer_of a k e = elim (Bool-cases a.is_signer) [
    | inl signs ↦ (signs, cc (signer_law a signs))
    | inr not_signing ↦ cc (not_signer_law a not_signing)
  ]

  pub Next-of_ok :
      (iter rest : List AccountInfo) (k : Pubkey)
      → next_outcome iter ≡ ok (k, rest)
      → Next iter k rest
  Next-of_ok [] rest k e = cc
  Next-of_ok (a ∷ others) rest k e = elim (Option-cases (signer_key a)) [
    | inl nobody ↦ ground arith
    | inr (k', e') ↦
        let same : k' ≡ k = ground arith in
        let following : others ≡ rest = ground arith in
        let (signs, key) = signer_of a k' e' in
        let key' : a.key ≡ k = key ∙ same in
        record {
          signs = inl (signs, key');
          later = λ j h. inr (rw following h);
          key = λ h. rw (← key') h.0;
          keys = λ h. rw (← following) h.1;
        }
  ]
