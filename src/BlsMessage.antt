-- ===== src/BlsMessage.antt =====
-- program/src/bls_message.rs: the messages that validators exchange. The BLS signature is an external
-- type, and so is the serializer `bincode`.
use alpenglow_vote.Base.{ℕ, Bool, List, [], ◌∷◌, ◌≡◌, arith}
use alpenglow_vote.Exec.{Outcome, ok, err, panic}
use alpenglow_vote.Pod.{Bytes}
use alpenglow_vote.Certificate.{Certificate}
use alpenglow_vote.Vote.{Vote}

-- b"alpenglow"
abbrev pub bls_keypair_derive_seed : Bytes
bls_keypair_derive_seed = 97 ∷ 108 ∷ 112 ∷ 101 ∷ 110 ∷ 103 ∷ 108 ∷ 111 ∷ 119 ∷ []

-- `rank` is a u16.
pub record VoteMessage (Signature : Type 0) : Type 0 where
  pub vote : Vote
  pub signature : Signature
  pub rank : ℕ

-- `bitmap` lists the bits of a `BitVec<u8, Lsb0>`, the first one first.
pub record CertificateMessage (Signature : Type 0) : Type 0 where
  pub certificate : Certificate
  pub signature : Signature
  pub bitmap : List Bool

pub data BlsMessage (Signature : Type 0) : Type 0 where
  vote_message : VoteMessage Signature → BlsMessage Signature
  certificate_message : CertificateMessage Signature → BlsMessage Signature

-- `bincode::serialize` and `bincode::deserialize`
pub record Bincode (A : Type 0) : Type 0 where
  pub serialize : A → Outcome Bytes
  pub deserialize : Bytes → Outcome A

-- `r.unwrap()`
abbrev unwrap : {A : Type 0} → Outcome A → Outcome A
unwrap (ok a) = ok a
unwrap (err _) = panic
unwrap panic = panic

module _ {Signature : Type 0} where
  unfoldable pub new_vote : Vote → Signature → ℕ → BlsMessage Signature
  new_vote vote signature rank =
      vote_message (record { vote = vote; signature = signature; rank = rank })

  unfoldable pub new_certificate : Certificate → List Bool → Signature → BlsMessage Signature
  new_certificate certificate bitmap signature =
      certificate_message
        (record { certificate = certificate; signature = signature; bitmap = bitmap })

  module _ (bincode : Bincode (BlsMessage Signature)) where
    unfoldable pub deserialize : Bytes → Outcome (BlsMessage Signature)
    deserialize bls_message_in_bytes = unwrap (bincode.deserialize bls_message_in_bytes)

    unfoldable pub serialize : BlsMessage Signature → Outcome Bytes
    serialize message = unwrap (bincode.serialize message)

    -- If bincode reads back what it writes, a message that is serialized is read back.
    deserialize-serialize :
        ((m : BlsMessage Signature) (b : Bytes)
          → bincode.serialize m ≡ ok b
          → bincode.deserialize b ≡ ok m)
        → (m : BlsMessage Signature) (b : Bytes) → serialize m ≡ ok b
        → deserialize b ≡ ok m
    unfolding serialize deserialize
    deserialize-serialize reads m b e = grind (arith, reads m b)
